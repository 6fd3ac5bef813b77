-- ===== src/Hooks/Removal.antt =====
-- Unregistering: `unregister` and `unregisterPlugin`.
use wp_open_omega.Common.{
  ℕ, suc, ◌+◌, ◌-◌, String, ◌≡◌, refl, ap, ◌∙◌, sym, true, not, none, some, List, [], ◌∷◌, arith,
  All, has_key, has_key-insert, lookup, keep, count_if, eq_iff, inl, inr, Option-cases, Bool-cases,
  get_or_default, any-keep-not,
}
use wp_open_omega.Hooks.{
  HookRegistration, HookManager, unregister, unregister_plugin, unregister_from, splice, find_id,
  hooks_of, has_id, of_plugin, drop_plugin, forget_id, plugin_events, get_plugin_events, set_delete,
}
use wp_open_omega.Hooks.Order.{All-splice, splice-IsSorted}
use wp_open_omega.Hooks.Registry.{IsList, IsValid, IsValid-tracked}

forget_id-tracked :
    (p k q : String) (tracked : List (String × List String))
    → has_key q tracked ≡ true
    → has_key q (forget_id p k tracked) ≡ true
forget_id-tracked p k q tracked h = elim (Option-cases (lookup p tracked)) [
  | inl missing ↦ rw (missing, forget_id) h
  | inr (ids, found) ↦
      rw (found, forget_id) (rw (has_key-insert p q (set_delete k ids) tracked) (ground arith))
]

module _ {ℓ} {H : Type ℓ} where
  -- How many registrations have the id.
  abbrev pub count_id : String → List (String × List (HookRegistration H)) → ℕ
  count_id k [] = 0
  count_id k ((event, rs) ∷ hooks) = count_if (has_id k) rs + count_id k hooks

  find_id-count :
      (k : String) (rs : List (HookRegistration H))
      → (find_id k rs ≡ none → count_if (has_id k) rs ≡ 0)
        × ((r : HookRegistration H)
            → find_id k rs ≡ some r
            → count_if (has_id k) rs ≡ suc (count_if (has_id k) (splice k rs)))
  unfolding find_id splice
  find_id-count k [] = (λ e. refl, λ r e. cc)
  find_id-count k (s ∷ rs) = elim (Bool-cases (has_id k s)) [
    | inl here ↦ (λ e. ground arith, λ r e. rw here (omega arith))
    | inr other ↦ (
      λ e. ground (arith, (find_id-count k rs).0),
      λ r e. ground (arith, (find_id-count k rs).1 r),
    )
  ]

  count-unregister_from :
      (k : String) (hooks : List (String × List (HookRegistration H)))
      → count_id k (unregister_from k hooks).0 ≡ count_id k hooks - 1
  unfolding unregister_from
  count-unregister_from k [] = refl
  count-unregister_from k ((event, rs) ∷ hooks) = elim (Option-cases (find_id k rs)) [
    | inl missing ↦
        rw (missing, unregister_from)
          (omega (arith, (find_id-count k rs).0 missing, count-unregister_from k hooks))
    | inr (r, found) ↦ rw (found, unregister_from) (omega (arith, (find_id-count k rs).1 r found))
  ]

  keep-splice :
      (k : String) (rs : List (HookRegistration H))
      → keep (λ r. not (has_id k r)) (splice k rs) ≡ keep (λ r. not (has_id k r)) rs
  unfolding splice
  keep-splice k [] = refl
  keep-splice k (r ∷ rs) = ground (arith, keep-splice k rs)

  keep-unregister_from :
      (k e : String) (hooks : List (String × List (HookRegistration H)))
      → keep (λ r. not (has_id k r)) (get_or_default (lookup e (unregister_from k hooks).0) [])
        ≡ keep (λ r. not (has_id k r)) (get_or_default (lookup e hooks) [])
  unfolding unregister_from lookup
  keep-unregister_from k e [] = refl
  keep-unregister_from k e ((event, rs) ∷ hooks) = elim (Option-cases (find_id k rs)) [
    | inl missing ↦ rw (missing, unregister_from) (ground (arith, keep-unregister_from k e hooks))
    | inr (r, found) ↦ rw (found, unregister_from) (ground (arith, keep-splice k rs))
  ]

  unregister_from-none :
      (k : String) (hooks : List (String × List (HookRegistration H)))
      → (unregister_from k hooks).1 ≡ none
      → (unregister_from k hooks).0 ≡ hooks
  unfolding unregister_from
  unregister_from-none k [] h = refl
  unregister_from-none k ((event, rs) ∷ hooks) h = ground (arith, unregister_from-none k hooks)

  hooks-unregister :
      (k : String) (m : HookManager H) → (unregister k m).hooks ≡ (unregister_from k m.hooks).0
  unfolding unregister
  hooks-unregister k m = elim (Option-cases (unregister_from k m.hooks).1) [
    | inl missing ↦ rw (missing, unregister) (sym (unregister_from-none k m.hooks missing))
    | inr (r, found) ↦ rw (found, unregister) refl
  ]

  -- `unregister` drops one registration with the id, if there is one, and keeps all that have
  -- another id, in their order.
  pub unregister_one :
      (k : String) (m : HookManager H)
      → (count_id k (unregister k m).hooks ≡ count_id k m.hooks - 1)
        × ((e : String)
            → keep (λ r. not (has_id k r)) (hooks_of e (unregister k m))
              ≡ keep (λ r. not (has_id k r)) (hooks_of e m))
  unregister_one k m = (
    ap (count_id k) (hooks-unregister k m) ∙ count-unregister_from k m.hooks,
    λ e. rw (hooks-unregister k m) (keep-unregister_from k e m.hooks),
  )

  lookup-drop_plugin :
      (p e : String) (hooks : List (String × List (HookRegistration H)))
      → get_or_default (lookup e (drop_plugin p hooks)) []
        ≡ keep (λ r. not (of_plugin p r)) (get_or_default (lookup e hooks) [])
  unfolding lookup
  lookup-drop_plugin p e [] = refl
  lookup-drop_plugin p e ((event, rs) ∷ hooks) = ground (arith, lookup-drop_plugin p e hooks)

  -- A plugin that is not tracked has no registration.
  untracked :
      (p : String) (tracked : List (String × List String)) (rs : List (HookRegistration H))
      → lookup p tracked ≡ none
      → All (λ (r : HookRegistration H). has_key r.plugin_id tracked ≡ true) rs
      → keep (λ r. not (of_plugin p r)) rs ≡ rs
  unfolding has_key
  untracked p tracked [] e h = refl
  untracked p tracked (r ∷ rs) e (h, hs) = elim (Bool-cases (of_plugin p r)) [
    | inl same ↦ ground (arith, eq_iff r.plugin_id p)
    | inr other ↦ rw other (ap (λ t. r ∷ t) (untracked p tracked rs e hs))
  ]

  untracked-All :
      (p : String) (tracked : List (String × List String))
      (hooks : List (String × List (HookRegistration H)))
      → lookup p tracked ≡ none
      → All (IsList tracked) hooks
      → drop_plugin p hooks ≡ hooks
  untracked-All p tracked [] e h = refl
  untracked-All p tracked ((event, rs) ∷ hooks) e (h, hs) =
      cc (untracked p tracked rs e h.of_tracked, untracked-All p tracked hooks e hs)

  hooks-unregister_plugin :
      (p : String) (m : HookManager H)
      → IsValid m
      → (unregister_plugin p m).hooks ≡ drop_plugin p m.hooks
  unfolding unregister_plugin
  hooks-unregister_plugin p m h = elim (Option-cases (lookup p m.plugin_hooks)) [
    | inl missing ↦
        rw (missing, unregister_plugin) (sym (untracked-All p m.plugin_hooks m.hooks missing h))
    | inr (ids, found) ↦ rw (found, unregister_plugin) refl
  ]

  plugin_events-drop_plugin :
      (p : String) (hooks : List (String × List (HookRegistration H)))
      → plugin_events p (drop_plugin p hooks) ≡ []
  plugin_events-drop_plugin p [] = refl
  plugin_events-drop_plugin p ((event, rs) ∷ hooks) =
      rw (any-keep-not (of_plugin p) rs) (plugin_events-drop_plugin p hooks)

  -- After `unregisterPlugin` no event has a hook of the plugin, and each event keeps the hooks of
  -- the other plugins, in their order.
  pub unregister_plugin_all :
      (p : String) (m : HookManager H)
      → IsValid m
      → (get_plugin_events p (unregister_plugin p m) ≡ [])
        × ((e : String)
            → hooks_of e (unregister_plugin p m) ≡ keep (λ r. not (of_plugin p r)) (hooks_of e m))
  unfolding get_plugin_events
  unregister_plugin_all p m h = (
    ap (plugin_events p) (hooks-unregister_plugin p m h) ∙ plugin_events-drop_plugin p m.hooks,
    λ e. rw (hooks-unregister_plugin p m h) (lookup-drop_plugin p e m.hooks),
  )

  unregister_from-IsValid :
      (k : String) (tracked : List (String × List String))
      (hooks : List (String × List (HookRegistration H)))
      → All (IsList tracked) hooks
      → All (IsList tracked) (unregister_from k hooks).0
  unfolding unregister_from
  unregister_from-IsValid k tracked [] h = tt
  unregister_from-IsValid k tracked ((event, rs) ∷ hooks) (h, hs) =
      elim (Option-cases (find_id k rs)) [
        | inl missing ↦
            rw (missing, unregister_from) (h, unregister_from-IsValid k tracked hooks hs)
        | inr (r, found) ↦
            rw (found, unregister_from)
              (
                record {
                  sorted = splice-IsSorted k rs h.sorted;
                  of_event =
                      All-splice (λ (s : HookRegistration H). s.event ≡ event) k rs h.of_event;
                  of_tracked =
                      All-splice (λ (s : HookRegistration H). has_key s.plugin_id tracked ≡ true) k
                        rs h.of_tracked;
                },
                hs,
              )
      ]

  -- `unregister` keeps every list sorted, under its event and of tracked plugins.
  pub unregister-IsValid : (k : String) (m : HookManager H) → IsValid m → IsValid (unregister k m)
  unfolding unregister
  unregister-IsValid k m h =
      let left = unregister_from-IsValid k m.plugin_hooks m.hooks h in
      elim (Option-cases (unregister_from k m.hooks).1) [
        | inl missing ↦ rw (missing, unregister) h
        | inr (r, found) ↦
            rw (found, unregister)
              (IsValid-tracked m.plugin_hooks (forget_id r.plugin_id k m.plugin_hooks)
                (unregister_from k m.hooks).0 (λ q t. forget_id-tracked r.plugin_id k q _ t) left)
      ]
