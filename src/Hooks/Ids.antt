-- ===== src/Hooks/Ids.antt =====
-- The ids that `register` gives, and what `unregister` does when two hooks share one.
use wp_open_omega.Common.{
  ℕ, ◌+◌, ◌≤◌, String, ◌≡◌, refl, List, [], ◌∷◌, ◌++◌, arith, insert, lookup, lookup-insert,
  count_if, str_eq_refl, get_or_default,
}
use wp_open_omega.Hooks.{
  HookRegistration, HookManager, place, sort, register, unregister, hook_id, hooks_of, has_id,
}
use wp_open_omega.Hooks.Removal.{count_id, unregister_one}

module _ {ℓ} {H : Type ℓ} where
  count-place :
      (k : String) (r : HookRegistration H) (rs : List (HookRegistration H))
      → count_if (has_id k) (place r rs) ≡ count_if (has_id k) (r ∷ rs)
  unfolding place
  count-place k r [] = refl
  count-place k r (s ∷ rs) = ground (arith, count-place k r rs)

  count-sort :
      (k : String) (rs : List (HookRegistration H))
      → count_if (has_id k) (sort rs) ≡ count_if (has_id k) rs
  unfolding sort
  count-sort k [] = refl
  count-sort k (r ∷ rs) = omega (arith, count-place k r (sort rs), count-sort k rs)

  count-append :
      (k : String) (rs ss : List (HookRegistration H))
      → count_if (has_id k) (rs ++ ss) ≡ count_if (has_id k) rs + count_if (has_id k) ss
  count-append k [] ss = omega arith
  count-append k (r ∷ rs) ss = omega (arith, count-append k rs ss)

  count_id-insert :
      (k e : String) (rs : List (HookRegistration H))
      (hooks : List (String × List (HookRegistration H)))
      → count_if (has_id k) rs ≤ count_id k (insert e rs hooks)
  unfolding insert
  count_id-insert k e rs [] = omega arith
  count_id-insert k e rs ((f, ss) ∷ hooks) = ground (arith, count_id-insert k e rs hooks)

  hooks_of-insert :
      (e : String) (rs : List (HookRegistration H))
      (hooks : List (String × List (HookRegistration H)))
      → get_or_default (lookup e (insert e rs hooks)) [] ≡ rs
  hooks_of-insert e rs hooks = rw (lookup-insert e e rs hooks) (rw (str_eq_refl e) refl)

  -- What `register` leaves under the event counts one more of the id that it returns.
  count-register :
      (plugin event : String) (h : H) (i : ℕ) (now : String) (m : HookManager H)
      → let k = hook_id plugin event now in
        let m' = (register plugin event h i now m).0 in
        ((register plugin event h i now m).1 ≡ k)
        × (count_if (has_id k) (hooks_of event m') ≡ 1 + count_if (has_id k) (hooks_of event m))
        × (count_if (has_id k) (hooks_of event m') ≤ count_id k m'.hooks)
  unfolding register
  count-register plugin event h i now m =
      let k = hook_id plugin event now in
      let r : HookRegistration H = record {
        id = k;
        plugin_id = plugin;
        event = event;
        handler = h;
        priority = i;
      } in
      let rs = sort (hooks_of event m ++ r ∷ []) in
      let stored = hooks_of-insert event rs m.hooks in
      let one : count_if (has_id k) (r ∷ []) ≡ 1 = rw (str_eq_refl k) refl in
      (
        refl,
        rw stored (
            omega (
              arith,
              count-sort k (hooks_of event m ++ r ∷ []),
              count-append k (hooks_of event m) (r ∷ []),
              one,
            )),
        rw stored (count_id-insert k event rs m.hooks),
      )

  -- Two hooks that a plugin registers for one event at one reading of the clock get one id, and
  -- `unregister` with that id leaves at least one of them registered.
  pub register-same_time :
      (plugin event now : String) (a b : H) (i j : ℕ) (m : HookManager H)
      → let (m', first) = register plugin event a i now m in
        let (m'', second) = register plugin event b j now m' in
        (first ≡ second) × (1 ≤ count_id second (unregister second m'').hooks)
  register-same_time plugin event now a b i j m =
      let (m', first) = register plugin event a i now m in
      let (m'', second) = register plugin event b j now m' in
      let k = hook_id plugin event now in
      let (is_k, one, _) = count-register plugin event a i now m in
      let (is_k', two, all) = count-register plugin event b j now m' in
      (cc, rw is_k' (omega (arith, one, two, all, (unregister_one k m'').0)))
