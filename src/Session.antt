-- ===== src/Session.antt =====
-- The life of one session in memory: `start`, `stop`, `scheduleReconnect`, `executeReconnect`,
-- `cancelReconnect` and `onDisconnected` of src/modules/session/session.service.ts. The maps of the
-- service are read at the session's id. Each call is cut at its awaits, where any other step may come
-- in between: `start` at its hook, `stop` at the disconnection of the engine, and `executeReconnect`
-- at the destruction of the old engine, the initialization of the new one and the destruction of one
-- that is not wanted any more. Any number of calls may be under way at once.
pub mod Reconnect
pub mod Phones
mod Tests
use wp_open_omega.Common.{
  ℕ, ◌+◌, ◌*◌, ◌^◌, Bool, true, false, ◌&&◌, Option, none, some, List, [], ◌∷◌, leb, if◌then◌else◌,
  get_or_default,
}

pub data SessionStatus : Type 0 where
  created initializing qr_ready authenticating ready disconnected failed : SessionStatus

-- `timer` says whether the entry holds a timer that is pending.
pub record ReconnectState : Type 0 where
  pub attempts : ℕ
  pub timer : Bool
  pub max_attempts : ℕ
  pub base_delay : ℕ

-- `engine` says whether `engines` has the id, `stopping` whether `stoppingSessions` has it, and
-- `last_error` whether `sessionErrors` does. `loose` counts the pending timers that no entry of
-- `reconnectStates` holds any more; the others count the calls that wait: `starting` for the hook,
-- `disconnecting` in `stop`, and `destroying`, `connecting` and `removing` in `executeReconnect`.
pub record SessionState : Type 0 where
  pub status : SessionStatus
  pub engine : Bool
  pub stopping : Bool
  pub reconnect : Option ReconnectState
  pub last_error : Bool
  pub loose : ℕ
  pub starting : ℕ
  pub disconnecting : ℕ
  pub destroying : ℕ
  pub connecting : ℕ
  pub removing : ℕ

-- The delay before an attempt, without the random part below a second.
unfoldable pub backoff : ReconnectState → ℕ
backoff state = state.base_delay * 2 ^ state.attempts

abbrev pub scheduled : ReconnectState → ReconnectState
scheduled state = record state { attempts = state.attempts + 1; timer = true }

-- The timers that are lost when an entry's timer is written over.
abbrev pub held : Option ReconnectState → ℕ
held none = 0
held (some state) = if state.timer then 1 else 0

abbrev pub schedule_from : Option ReconnectState → SessionState → SessionState
schedule_from none s = s
schedule_from (some state) s =
    if leb state.max_attempts state.attempts
    then (record s { status = failed; last_error = true })
    else (record s { reconnect = some (scheduled state); loose = s.loose + held (some state) })

unfoldable pub schedule_reconnect : SessionState → SessionState
schedule_reconnect s = schedule_from s.reconnect s

unfoldable pub on_disconnected : SessionState → SessionState
unfolding schedule_reconnect
on_disconnected s = schedule_reconnect (record s { status = disconnected })

-- `initializeEngine` up to its await.
unfoldable pub initialize_engine : SessionState → SessionState
initialize_engine s = record s { engine = true; last_error = false; status = initializing }

-- `start` up to its hook; none is the error of a session that is started.
unfoldable pub start : SessionState → Option SessionState
start s = if s.engine then none else some (record s { stopping = false; starting = s.starting + 1 })

-- Behind the hook, with the configured limits and the number of other calls that wait for it.
unfoldable pub continue_start : Option ℕ → Option ℕ → ℕ → SessionState → SessionState
unfolding initialize_engine
continue_start max_attempts base_delay others s = initialize_engine (record s {
  starting = others;
  reconnect = some (record {
    attempts = 0;
    timer = false;
    max_attempts = get_or_default max_attempts 5;
    base_delay = get_or_default base_delay 5000;
  });
  loose = s.loose + held s.reconnect;
})

-- `stop` up to the disconnection: the mark and `cancelReconnect`.
unfoldable pub stop : SessionState → SessionState
stop s =
    let marked = record s { stopping = true; reconnect = none } in
    if s.engine
    then (record marked { disconnecting = s.disconnecting + 1 })
    else (record marked { status = disconnected })

-- Behind the disconnection; if that fails, `stop` throws.
unfoldable pub finish_stop : Bool → ℕ → SessionState → SessionState
finish_stop true others s = record s {
  disconnecting = others;
  engine = false;
  status = disconnected;
}
finish_stop false others s = record s { disconnecting = others }

abbrev pub fired : ReconnectState → ReconnectState
fired state = record state { timer = false }

-- `executeReconnect` up to the destruction of the old engine, if there is one.
unfoldable pub begin_reconnect : SessionState → SessionState
unfolding initialize_engine
begin_reconnect s =
    if s.stopping
    then s
    else if s.engine
    then (record s { destroying = s.destroying + 1 })
    else (initialize_engine (record s { connecting = s.connecting + 1 }))

-- Behind the destruction, which may fail.
unfoldable pub continue_reconnect : Bool → ℕ → SessionState → SessionState
unfolding initialize_engine schedule_reconnect
continue_reconnect true others s =
    initialize_engine (record s { destroying = others; connecting = s.connecting + 1 })
continue_reconnect false others s = schedule_reconnect (record s { destroying = others })

-- Behind the initialization: success, with the check of the mark, and failure.
unfoldable pub finish_reconnect : Bool → ℕ → SessionState → SessionState
unfolding schedule_reconnect
finish_reconnect true others s =
    if s.stopping && s.engine
    then (record s { connecting = others; removing = s.removing + 1 })
    else (record s { connecting = others })
finish_reconnect false others s = schedule_reconnect (record s { connecting = others })

-- Behind the destruction of an engine that a stopped session has got.
unfoldable pub finish_removal : Bool → ℕ → SessionState → SessionState
unfolding schedule_reconnect
finish_removal true others s = record s { removing = others; engine = false }
finish_removal false others s = schedule_reconnect (record s { removing = others })
