-- ===== src/Hooks/Tests.antt =====
-- Runs of the hook manager, and the theorems at concrete inputs. A handler is a number here.
use wp_open_omega.Common.{
  ℕ, ◌+◌, ◌≤◌, String, ◌≡◌, refl, false, not, none, some, List, [], ◌∷◌, arith, keep, str_eq, any,
  if◌then◌else◌, lookup, insert, ◌==◌,
}
use wp_open_omega.Hooks.{
  HookRegistration, HookManager, register, unregister, unregister_plugin, hooks_of, of_plugin,
  get_plugin_events, get_registered_hooks,
}
use wp_open_omega.Hooks.Registry.{IsValid, register-IsValid}
use wp_open_omega.Hooks.Removal.{count_id, unregister_plugin_all}
use wp_open_omega.Hooks.Ids.{register-same_time}
use wp_open_omega.Hooks.Execute.{HookContext, Answer, returned, threw, run_loop, execute}
use wp_open_omega.Hooks.Chain.{execute-in_flight}
use wp_open_omega.Hooks.Cascade.{nested, execute_terminates}

abbrev new : HookManager ℕ
new = record { hooks = []; plugin_hooks = [] }

new-IsValid : IsValid new
new-IsValid = tt

-- Three hooks for one event, of two plugins.
abbrev one : HookManager ℕ
one = (register "a" "message:sent" 1 100 "7" new).0

abbrev two : HookManager ℕ
two = (register "b" "message:sent" 2 50 "8" one).0

abbrev three : HookManager ℕ
three = (register "a" "message:sent" 3 50 "9" two).0

three_run :
    get_registered_hooks three ≡ ("message:sent", ("b", 50) ∷ ("a", 50) ∷ ("a", 100) ∷ []) ∷ []
unfolding register get_registered_hooks lookup insert
three_run = refl

one-IsValid : IsValid one
one-IsValid = register-IsValid "a" "message:sent" 1 100 "7" new new-IsValid

two-IsValid : IsValid two
two-IsValid = register-IsValid "b" "message:sent" 2 50 "8" one one-IsValid

register-IsValid_example : IsValid three
register-IsValid_example = register-IsValid "a" "message:sent" 3 50 "9" two two-IsValid

unregister_plugin_all_example :
    (get_plugin_events "a" (unregister_plugin "a" three) ≡ [])
    × ((e : String)
        → hooks_of e (unregister_plugin "a" three)
          ≡ keep (λ r. not (of_plugin "a" r)) (hooks_of e three))
unregister_plugin_all_example = unregister_plugin_all "a" three register-IsValid_example

register-same_time_example :
    let (m', first) = register "a" "message:sent" 1 100 "7" new in
    let (m'', second) = register "a" "message:sent" 2 100 "7" m' in
    (first ≡ second) × (1 ≤ count_id second (unregister second m'').hooks)
register-same_time_example = register-same_time "a" "message:sent" "7" 1 2 100 100 new

-- Handler 2 stops the chain, handler 3 throws, any other adds its number to the data; the state
-- collects the handlers that ran.
abbrev respond : ℕ → HookContext ℕ → List String → List ℕ → Answer ℕ × List ℕ
respond h ctx fl w = if h == 3 then (threw, w) else (
  returned (record { continues = not (h == 2); body = some (ctx.body + h); error = false }),
  h ∷ w,
)

abbrev sent_event : HookContext ℕ
sent_event = record { event = "message:sent"; body = 10; session_id = none; source = "test" }

abbrev registration : ℕ → HookRegistration ℕ
registration h = record {
  id = "i";
  plugin_id = "p";
  event = "message:sent";
  handler = h;
  priority = 0;
}

chain_run :
    run_loop respond
      (registration 1 ∷ registration 3 ∷ registration 4 ∷ registration 2 ∷ registration 5 ∷ [])
      sent_event
      []
      []
    ≡ ((false, 17), 2 ∷ 4 ∷ 1 ∷ [])
unfolding run_loop
chain_run = refl

-- A second behaviour of the handlers, which differs only where the event is not in flight.
abbrev respond' : ℕ → HookContext ℕ → List String → List ℕ → Answer ℕ × List ℕ
respond' h ctx fl w = if any (str_eq "message:sent") fl then respond h ctx fl w else (threw, 0 ∷ w)

execute-in_flight_example :
    execute respond three sent_event [] [] ≡ execute respond' three sent_event [] []
execute-in_flight_example =
    execute-in_flight respond respond' three sent_event [] [] (λ h c g v i. rw i refl)

-- Every handler fires the event that it handles, and another one.
execute_terminates_example :
    (execute
      (nested three (λ h. "message:sent" ∷ "message:received" ∷ []) (λ h c. threw) 1)
      three
      sent_event
      []
      false).1
    ≡ false
unfolding register lookup insert
execute_terminates_example =
    execute_terminates three (λ h. "message:sent" ∷ "message:received" ∷ []) (λ h c. threw) 1
      sent_event [] (omega arith)
