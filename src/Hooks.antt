-- ===== src/Hooks.antt =====
-- The hook manager of plugins: src/core/hooks/hook-manager.service.ts and hook.interfaces.ts. The two
-- `Map` objects are association lists; a `Set` of ids is a list without repetition. A handler is a
-- value of any type `H`; what it does when it is called is a parameter of `execute`. A priority is
-- a natural number.
pub mod Order
pub mod Registry
pub mod Removal
pub mod Ids
pub mod Execute
pub mod Chain
pub mod Cascade
mod Tests
use mathlib.Core.List.{flat_map}
use wp_open_omega.Common.{
  ℕ, ◌+◌, String, Bool, ◌&&◌, ◌||◌, true, false, not, Option, none, some, List, [], ◌∷◌, ◌++◌, map,
  leb, if◌then◌else◌, str_eq, str_append, any, keep, length, lookup, insert, erase, get_or_default,
  is_some,
}

pub record HookRegistration {ℓ} (H : Type ℓ) : Type ℓ where
  pub id : String
  pub plugin_id : String
  pub event : String
  pub handler : H
  pub priority : ℕ

pub record HookManager {ℓ} (H : Type ℓ) : Type ℓ where
  pub hooks : List (String × List (HookRegistration H))
  pub plugin_hooks : List (String × List String)

-- `Set.add` and `Set.delete`.
abbrev pub set_add : String → List String → List String
set_add k s = if any (str_eq k) s then s else s ++ k ∷ []

abbrev pub set_delete : String → List String → List String
set_delete k s = keep (λ j. not (str_eq k j)) s

abbrev infix_colon : String → String → String
infix_colon s t = str_append s (str_append ":" t)

-- `${pluginId}:${event}:${Date.now()}`; `now` is the clock's reading, in decimal.
unfoldable pub hook_id : String → String → String → String
hook_id plugin event now = infix_colon plugin (infix_colon event now)

-- `pluginHookIds.delete(hookId)`, if the plugin is tracked.
abbrev pub forget_id : String → String → List (String × List String) → List (String × List String)
forget_id p k tracked = elim (lookup p tracked) [
  | none ↦ tracked
  | some ids ↦ insert p (set_delete k ids) tracked
]

module _ {ℓ} {H : Type ℓ} where
  -- `sort` by priority, which keeps the order of equal elements: each element goes before the
  -- first of the sorted rest that it does not come after.
  unfoldable pub place : HookRegistration H → List (HookRegistration H) → List (HookRegistration H)
  place r [] = r ∷ []
  place r (s ∷ rs) = if leb r.priority s.priority then r ∷ (s ∷ rs) else s ∷ place r rs

  unfoldable pub sort : List (HookRegistration H) → List (HookRegistration H)
  unfolding place
  sort [] = []
  sort (r ∷ rs) = place r (sort rs)

  -- `this.hooks.get(event)`, or the empty list.
  abbrev pub hooks_of : String → HookManager H → List (HookRegistration H)
  hooks_of event m = get_or_default (lookup event m.hooks) []

  unfoldable pub register :
      String → String → H → ℕ → String → HookManager H → HookManager H × String
  unfolding hook_id sort
  register plugin event handler priority now m =
      let id = hook_id plugin event now in
      let r : HookRegistration H = record {
        id = id;
        plugin_id = plugin;
        event = event;
        handler = handler;
        priority = priority;
      } in
      (
        record {
          hooks = insert event (sort (hooks_of event m ++ r ∷ [])) m.hooks;
          plugin_hooks =
              insert plugin (set_add id (get_or_default (lookup plugin m.plugin_hooks) []))
                m.plugin_hooks;
        },
        id,
      )

  abbrev pub has_id : String → HookRegistration H → Bool
  has_id k r = str_eq r.id k

  abbrev pub of_plugin : String → HookRegistration H → Bool
  of_plugin p r = str_eq r.plugin_id p

  -- `findIndex` and `splice(index, 1)` on one list.
  unfoldable pub splice : String → List (HookRegistration H) → List (HookRegistration H)
  splice k [] = []
  splice k (r ∷ rs) = if has_id k r then rs else r ∷ splice k rs

  -- The first registration with the id, in a list.
  unfoldable pub find_id : String → List (HookRegistration H) → Option (HookRegistration H)
  find_id k [] = none
  find_id k (r ∷ rs) = if has_id k r then some r else find_id k rs

  -- The loop of `unregister`: it stops at the first list that has the id.
  unfoldable pub unregister_from :
      String
      → List (String × List (HookRegistration H))
      → List (String × List (HookRegistration H)) × Option (HookRegistration H)
  unfolding splice find_id
  unregister_from k [] = ([], none)
  unregister_from k ((event, rs) ∷ hooks) =
      let rest = unregister_from k hooks in
      elim (find_id k rs) [
        | some r ↦ ((event, splice k rs) ∷ hooks, some r)
        | none ↦ ((event, rs) ∷ rest.0, rest.1)
      ]

  unfoldable pub unregister : String → HookManager H → HookManager H
  unfolding unregister_from
  unregister k m =
      let (hooks, found) = unregister_from k m.hooks in
      elim found [
        | none ↦ m
        | some r ↦ record { hooks = hooks; plugin_hooks = forget_id r.plugin_id k m.plugin_hooks }
      ]

  abbrev pub drop_plugin :
      String → List (String × List (HookRegistration H)) → List (String × List (HookRegistration H))
  drop_plugin p [] = []
  drop_plugin p ((event, rs) ∷ hooks) =
      (event, keep (λ r. not (of_plugin p r)) rs) ∷ drop_plugin p hooks

  unfoldable pub unregister_plugin : String → HookManager H → HookManager H
  unregister_plugin p m = elim (lookup p m.plugin_hooks) [
    | none ↦ m
    | some ids ↦ record { hooks = drop_plugin p m.hooks; plugin_hooks = erase p m.plugin_hooks }
  ]

  unfoldable pub has_hooks : String → HookManager H → Bool
  has_hooks event m = elim (hooks_of event m) [ [] ↦ false | r ∷ rs ↦ true ]

  unfoldable pub get_hook_count : String → HookManager H → ℕ
  get_hook_count event m = length (hooks_of event m)

  unfoldable pub get_registered_hooks : HookManager H → List (String × List (String × ℕ))
  get_registered_hooks m =
      map
        (λ (e : String × List (HookRegistration H)).
          (e.0, map (λ r. (r.plugin_id, r.priority)) e.1))
        m.hooks

  abbrev pub plugin_events : String → List (String × List (HookRegistration H)) → List String
  plugin_events p [] = []
  plugin_events p ((event, rs) ∷ hooks) =
      if any (of_plugin p) rs then event ∷ plugin_events p hooks else plugin_events p hooks

  unfoldable pub get_plugin_events : String → HookManager H → List String
  get_plugin_events p m = plugin_events p m.hooks
