-- ===== src/Hooks/Registry.antt =====
-- Registering and unregistering hooks.
use wp_open_omega.Common.{
  ℕ, String, ◌≡◌, refl, true, List, [], ◌∷◌, ◌++◌, arith, if◌then◌else◌, All, All-append,
  All-insert, lookup-All, has_key, has_key-insert, lookup, insert, lookup-insert, str_eq, inl, inr,
  Option-cases, get_or_default, str_eq_refl,
}
use wp_open_omega.Hooks.{HookRegistration, HookManager, sort, register, hook_id, hooks_of, set_add}
use wp_open_omega.Hooks.Order.{IsSorted, insert_after, sort-IsSorted, sort-append, All-sort}

module _ {ℓ} {H : Type ℓ} where
  -- A list of an event: sorted, of that event, and of plugins that are tracked.
  pub record IsList (tracked : List (String × List String)) (e : String × List (HookRegistration H))
      : Type ℓ where
    pub sorted : IsSorted e.1
    pub of_event : All (λ (r : HookRegistration H). r.event ≡ e.0) e.1
    pub of_tracked : All (λ (r : HookRegistration H). has_key r.plugin_id tracked ≡ true) e.1

  abbrev pub IsValid : HookManager H → Type ℓ
  IsValid m = All (IsList m.plugin_hooks) m.hooks

  IsList-of :
      (event : String) (m : HookManager H)
      → IsValid m
      → IsList m.plugin_hooks (event, hooks_of event m)
  IsList-of event m h = elim (Option-cases (lookup event m.hooks)) [
    | inl missing ↦ rw missing (record { sorted = tt; of_event = tt; of_tracked = tt })
    | inr (rs, found) ↦ rw found (lookup-All (IsList m.plugin_hooks) event m.hooks h found)
  ]

  -- The lists that an operation leaves alone stay valid where it forgets no plugin.
  pub IsValid-tracked :
      (old new : List (String × List String)) (hooks : List (String × List (HookRegistration H)))
      → ((p : String) → has_key p old ≡ true → has_key p new ≡ true)
      → All (IsList old) hooks
      → All (IsList new) hooks
  IsValid-tracked old new [] more h = tt
  IsValid-tracked old new ((event, rs) ∷ hooks) more (h, hs) = (
    record { sorted = h.sorted; of_event = h.of_event; of_tracked = go rs h.of_tracked },
    IsValid-tracked old new hooks more hs,
  )
    where
      go :
          (rs : List (HookRegistration H))
          → All (λ (r : HookRegistration H). has_key r.plugin_id old ≡ true) rs
          → All (λ (r : HookRegistration H). has_key r.plugin_id new ≡ true) rs
      go [] t = tt
      go (r ∷ rs) (t, ts) = (more r.plugin_id t, go rs ts)

  IsTracked : List (String × List String) → HookRegistration H → Type 0
  IsTracked tracked r = has_key r.plugin_id tracked ≡ true

  sort-IsList :
      (tracked : List (String × List String)) (event : String) (rs : List (HookRegistration H))
      (r : HookRegistration H)
      → IsList tracked (event, rs)
      → r.event ≡ event
      → has_key r.plugin_id tracked ≡ true
      → IsList tracked (event, sort (rs ++ r ∷ []))
  unfolding IsTracked
  sort-IsList tracked event rs r h e t = record {
    sorted = sort-IsSorted (rs ++ r ∷ []);
    of_event =
        All-sort (λ (s : HookRegistration H). s.event ≡ event) (rs ++ r ∷ [])
          (All-append (λ (s : HookRegistration H). s.event ≡ event) rs (r ∷ []) h.of_event (e, tt));
    of_tracked =
        All-sort (IsTracked tracked) (rs ++ r ∷ [])
          (All-append (IsTracked tracked) rs (r ∷ []) h.of_tracked (t, tt));
  }

  -- `register` keeps every list sorted, under its event and of tracked plugins.
  pub register-IsValid :
      (plugin event : String) (handler : H) (priority : ℕ) (now : String) (m : HookManager H)
      → IsValid m
      → IsValid (register plugin event handler priority now m).0
  unfolding register
  register-IsValid plugin event handler priority now m h =
      let ids =
        set_add (hook_id plugin event now) (get_or_default (lookup plugin m.plugin_hooks) []) in
      let tracked = insert plugin ids m.plugin_hooks in
      let more : (p : String) → has_key p m.plugin_hooks ≡ true → has_key p tracked ≡ true =
        λ p k. rw (has_key-insert plugin p ids m.plugin_hooks) (ground arith) in
      let self : has_key plugin tracked ≡ true =
        rw (has_key-insert plugin plugin ids m.plugin_hooks) (rw (str_eq_refl plugin) refl) in
      let old =
        IsValid-tracked m.plugin_hooks tracked ((event, hooks_of event m) ∷ []) more
          (IsList-of event m h, tt) in
      All-insert (IsList tracked) event _ m.hooks
        (sort-IsList tracked event (hooks_of event m) _ old.0 refl self)
        (IsValid-tracked m.plugin_hooks tracked m.hooks more h)

  -- The list of the event gets the new registration behind all of the same or of a lower priority
  -- and is otherwise as it was; the lists of the other events do not change.
  pub hooks_of-register :
      (plugin event : String) (handler : H) (priority : ℕ) (now : String) (m : HookManager H)
      (e : String)
      → IsValid m
      → hooks_of e (register plugin event handler priority now m).0 ≡ (
          if str_eq event e
          then insert_after
              (record {
                id = hook_id plugin event now;
                plugin_id = plugin;
                event = event;
                handler = handler;
                priority = priority;
              })
              (hooks_of event m)
          else hooks_of e m)
  unfolding register
  hooks_of-register plugin event handler priority now m e h =
      let r : HookRegistration H = record {
        id = hook_id plugin event now;
        plugin_id = plugin;
        event = event;
        handler = handler;
        priority = priority;
      } in
      ground (
        arith,
        lookup-insert event e (sort (hooks_of event m ++ r ∷ [])) m.hooks,
        sort-append (hooks_of event m) r (IsList-of event m h).sorted,
      )
