-- ===== src/Session/Reconnect.antt =====
-- What the steps of a session's life keep, in every order.
use wp_open_omega.Session.{
  SessionStatus, ReconnectState, SessionState, schedule_reconnect, schedule_from, fired,
  on_disconnected, start, continue_start, stop, finish_stop, begin_reconnect, continue_reconnect,
  finish_reconnect, finish_removal, initialize_engine,
}
use wp_open_omega.Common.{
  ℕ, suc, ◌+◌, ◌≤◌, ◌≡◌, refl, sym, subst, inl, inr, Bool, true, false, Option, none, some, arith,
  leb, Bool-cases,
}

-- The steps of a session: requests, the engine's report of a disconnection, timers, and what follows
-- the awaits, each of which may succeed or fail.
pub data Step : SessionState → SessionState → Type 0 where
  starts : (s t : SessionState) → start s ≡ some t → Step s t
  continues_start :
      (max_attempts base_delay : Option ℕ) (others : ℕ) (s : SessionState)
      → s.starting ≡ suc others
      → Step s (continue_start max_attempts base_delay others s)
  stops : (s : SessionState) → Step s (stop s)
  finishes_stop :
      (success : Bool) (others : ℕ) (s : SessionState)
      → s.disconnecting ≡ suc others
      → Step s (finish_stop success others s)
  disconnects : (s : SessionState) → Step s (on_disconnected s)
  fires :
      (s : SessionState) (state : ReconnectState)
      → s.reconnect ≡ some state
      → state.timer ≡ true
      → Step s (begin_reconnect (record s { reconnect = some (fired state) }))
  fires_loose :
      (others : ℕ) (s : SessionState)
      → s.loose ≡ suc others
      → Step s (begin_reconnect (record s { loose = others }))
  continues :
      (success : Bool) (others : ℕ) (s : SessionState)
      → s.destroying ≡ suc others
      → Step s (continue_reconnect success others s)
  finishes :
      (success : Bool) (others : ℕ) (s : SessionState)
      → s.connecting ≡ suc others
      → Step s (finish_reconnect success others s)
  removes :
      (success : Bool) (others : ℕ) (s : SessionState)
      → s.removing ≡ suc others
      → Step s (finish_removal success others s)

pub data Steps : SessionState → SessionState → Type 0 where
  done : (s : SessionState) → Steps s s
  next : (s t u : SessionState) → Steps s t → Step t u → Steps s u

-- The attempts counted are within the limit.
abbrev pub Within : Option ReconnectState → Type 0
Within none = Unit
Within (some state) = state.attempts ≤ state.max_attempts

unfoldable pub IsBounded : SessionState → Type 0
IsBounded s = Within s.reconnect

below : (a m : ℕ) → leb m a ≡ false → a + 1 ≤ m
below a m h = ground arith

schedule_from-IsBounded :
    (o : Option ReconnectState) (s : SessionState)
    → Within o
    → Within s.reconnect
    → Within (schedule_from o s).reconnect
schedule_from-IsBounded none s h k = k
schedule_from-IsBounded (some state) s h k =
    elim (Bool-cases (leb state.max_attempts state.attempts)) [
      | inl all_used ↦ rw all_used k
      | inr left ↦ rw left (below state.attempts state.max_attempts left)
    ]

abbrev Started : Option ReconnectState → Option SessionState → Type 0
Started before none = Unit
Started before (some t) = t.reconnect ≡ before

start-reconnect : (s : SessionState) → Started s.reconnect (start s)
unfolding start
start-reconnect s = elim (Bool-cases s.engine) [
  | inl running ↦ rw running tt
  | inr down ↦ rw down refl
]

reconnect-stop : (s : SessionState) → (stop s).reconnect ≡ none
unfolding stop
reconnect-stop s = ground arith

reconnect-begin : (s : SessionState) → (begin_reconnect s).reconnect ≡ s.reconnect
unfolding begin_reconnect initialize_engine
reconnect-begin s = ground arith

reconnect-finish :
    (others : ℕ) (s : SessionState) → (finish_reconnect true others s).reconnect ≡ s.reconnect
unfolding finish_reconnect
reconnect-finish others s = ground arith

step-IsBounded : (s t : SessionState) → Step s t → IsBounded s → IsBounded t
unfolding IsBounded on_disconnected schedule_reconnect continue_start finish_stop continue_reconnect
    finish_reconnect finish_removal initialize_engine
step-IsBounded s t (starts _ _ e) h =
    subst Within (sym (subst (Started s.reconnect) e (start-reconnect s))) h
step-IsBounded s t (continues_start max_attempts base_delay others _ e) h = omega arith
step-IsBounded s t (stops _) h = subst Within (sym (reconnect-stop s)) tt
step-IsBounded s t (finishes_stop true others _ e) h = h
step-IsBounded s t (finishes_stop false others _ e) h = h
step-IsBounded s t (disconnects _) h =
    schedule_from-IsBounded s.reconnect (record s { status = SessionStatus.disconnected }) h h
step-IsBounded s t (fires _ state e timer) h =
    let kept : Within (some (fired state)) = subst Within e h in
    subst Within (sym (reconnect-begin (record s { reconnect = some (fired state) }))) kept
step-IsBounded s t (fires_loose others _ e) h =
    subst Within (sym (reconnect-begin (record s { loose = others }))) h
step-IsBounded s t (continues true others _ e) h = h
step-IsBounded s t (continues false others _ e) h =
    schedule_from-IsBounded s.reconnect (record s { destroying = others }) h h
step-IsBounded s t (finishes true others _ e) h = subst Within (sym (reconnect-finish others s)) h
step-IsBounded s t (finishes false others _ e) h =
    schedule_from-IsBounded s.reconnect (record s { connecting = others }) h h
step-IsBounded s t (removes true others _ e) h = h
step-IsBounded s t (removes false others _ e) h =
    schedule_from-IsBounded s.reconnect (record s { removing = others }) h h

-- In every order of the steps, the attempts that are counted never exceed the configured limit.
pub Steps-IsBounded : (s t : SessionState) → Steps s t → IsBounded s → IsBounded t
Steps-IsBounded s t (done _) h = h
Steps-IsBounded s t (next _ u _ before last) h =
    step-IsBounded u t last (Steps-IsBounded s u before h)

-- No call is under way and no timer is pending that no entry holds.
abbrev pub Idle : SessionState → Type 0
Idle s =
    (s.loose ≡ 0)
    × (s.starting ≡ 0)
    × (s.disconnecting ≡ 0)
    × (s.destroying ≡ 0)
    × (s.connecting ≡ 0)
    × (s.removing ≡ 0)

begin-destroying :
    (s : SessionState)
    → s.engine ≡ true
    → s.stopping ≡ false
    → begin_reconnect s ≡ record s { destroying = s.destroying + 1 }
unfolding begin_reconnect
begin-destroying s engine stopping = rw (stopping, engine) refl

stop-disconnecting :
    (s : SessionState)
    → s.engine ≡ true
    → stop s ≡ record s { stopping = true; reconnect = none; disconnecting = s.disconnecting + 1 }
unfolding stop
stop-disconnecting s engine = rw engine refl

-- A session that is stopped while a reconnection awaits the destruction of its old engine, and
-- whose new engine then fails to initialize, ends with that engine registered: nothing is under
-- way, no reconnection is scheduled, and a start in that state is refused.
pub stop_leaves_engine :
    (s : SessionState) (state : ReconnectState)
    → s.engine ≡ true
    → s.stopping ≡ false
    → s.reconnect ≡ some state
    → state.timer ≡ true
    → Idle s
    → (t : SessionState) × Steps s t
      × (t.engine ≡ true)
      × (t.stopping ≡ true)
      × (t.reconnect ≡ none)
      × Idle t
      × (start t ≡ none)
unfolding start finish_stop continue_reconnect finish_reconnect schedule_reconnect initialize_engine
stop_leaves_engine s state engine stopping reconnect timer quiet =
    let armed = record s { reconnect = some (fired state) } in
    let begun = record armed { destroying = s.destroying + 1 } in
    let fire : Step s begun =
      subst (Step s) (begin-destroying armed engine stopping) (fires s state reconnect timer) in
    let halted = record begun {
      stopping = true;
      reconnect = none;
      disconnecting = s.disconnecting + 1;
    } in
    let halt : Step begun halted =
      subst (Step begun) (stop-disconnecting begun engine) (stops begun) in
    let stopped = finish_stop true s.disconnecting halted in
    let connected = continue_reconnect true s.destroying stopped in
    let end = finish_reconnect false s.connecting connected in
    let one : Steps s begun = next s s begun (done s) fire in
    let two : Steps s halted = next s begun halted one halt in
    let three : Steps s stopped =
      next s halted stopped two (finishes_stop true s.disconnecting halted (omega arith)) in
    let four : Steps s connected =
      next s stopped connected three (continues true s.destroying stopped (omega arith)) in
    let five : Steps s end =
      next s connected end four (finishes false s.connecting connected (omega arith)) in
    (end, five, refl, refl, refl, quiet, refl)
