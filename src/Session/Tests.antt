-- ===== src/Session/Tests.antt =====
-- Runs of a session's life, and the theorems at concrete inputs.
use wp_open_omega.Session.{
  SessionStatus, ReconnectState, SessionState, backoff, on_disconnected, start,
}
use wp_open_omega.Session.Reconnect.{
  disconnects, Idle, Steps, done, next, IsBounded, Steps-IsBounded, stop_leaves_engine,
}
use wp_open_omega.Common.{String, ◌≡◌, refl, true, false, Option, none, some, arith}

abbrev reconnecting : ReconnectState
reconnecting = record { attempts = 1; timer = true; max_attempts = 5; base_delay = 5000 }

abbrev up : SessionState
up = record {
  status = SessionStatus.disconnected;
  engine = true;
  stopping = false;
  reconnect = some reconnecting;
  last_error = false;
  loose = 0;
  starting = 0;
  disconnecting = 0;
  destroying = 0;
  connecting = 0;
  removing = 0;
}

second_delay : backoff reconnecting ≡ 10000
unfolding backoff
second_delay = refl

stop_leaves_engine_example :
    (t : SessionState) × Steps up t
    × (t.engine ≡ true)
    × (t.stopping ≡ true)
    × (t.reconnect ≡ none)
    × Idle t
    × (start t ≡ none)
stop_leaves_engine_example =
    stop_leaves_engine up reconnecting refl refl refl refl (refl, refl, refl, refl, refl, refl)

up-IsBounded : IsBounded up
unfolding IsBounded
up-IsBounded = omega arith

Steps-IsBounded_example : IsBounded (on_disconnected up)
Steps-IsBounded_example =
    Steps-IsBounded up (on_disconnected up)
      (next up up (on_disconnected up) (done up) (disconnects up)) up-IsBounded

abbrev by_engine : String → Option String
by_engine contact = some "4915100"

abbrev silent : String → Option String
silent contact = none
