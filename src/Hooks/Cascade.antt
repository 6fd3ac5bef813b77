-- ===== src/Hooks/Cascade.antt =====
-- Handlers that fire events themselves: `execute` called again from inside a handler, on the same
-- async context. The depth of such calls is bounded by the events that have handlers.
use wp_open_omega.Common.{
  ℕ, zero, suc, ◌≤◌, ◌<◌, String, ◌≡◌, refl, Bool, true, false, not, ◌||◌, none, some, List, [],
  ◌∷◌, ◌++◌, arith, str_eq, any, count_if, eq_iff, str_eq_refl, Bool-cases, Option-cases, ◌⊎◌, inl,
  inr, lookup,
}
use wp_open_omega.Hooks.{HookRegistration, HookManager, hooks_of}
use wp_open_omega.Hooks.Execute.{HookContext, Answer, threw, next_data, run_loop, execute}

module _ {ℓ κ} {H : Type ℓ} {D : Type κ} (m : HookManager H) (fires : H → List String)
    (answer : H → HookContext D → Answer D) where
  -- A handler fires its events one after the other, each with the data and the in-flight events
  -- that it was given itself, and then answers. The state says whether the fuel has run out.
  fire_all :
      (H → HookContext D → List String → Bool → Answer D × Bool)
      → List String
      → HookContext D
      → List String
      → Bool
      → Bool
  fire_all call [] ctx fl out = out
  fire_all call (e ∷ es) ctx fl out =
      fire_all call es ctx fl (execute call m (record ctx { event = e }) fl out).1

  pub nested : ℕ → H → HookContext D → List String → Bool → Answer D × Bool
  nested zero h ctx fl out = (threw, true)
  nested (suc fuel) h ctx fl out = (answer h ctx, fire_all (nested fuel) (fires h) ctx fl out)

  -- The events with a list of handlers that are not in flight.
  abbrev idle : List (String × List (HookRegistration H)) → List String → ℕ
  idle hooks fl =
      count_if (λ (e : String × List (HookRegistration H)). not (any (str_eq e.0) fl)) hooks

  any-append_or :
      (e f : String) (fl : List String)
      → any (str_eq e) (fl ++ f ∷ []) ≡ (any (str_eq e) fl || str_eq e f)
  any-append_or e f [] = ground arith
  any-append_or e f (g ∷ fl) = ground (arith, any-append_or e f fl)

  idle-append_le :
      (hooks : List (String × List (HookRegistration H))) (e : String) (fl : List String)
      → idle hooks (fl ++ e ∷ []) ≤ idle hooks fl
  idle-append_le [] e fl = omega arith
  idle-append_le ((f, rs) ∷ hooks) e fl =
      ground (arith, any-append_or f e fl, idle-append_le hooks e fl)

  -- An event with handlers that goes into flight is one less that is idle.
  idle-append_lt :
      (hooks : List (String × List (HookRegistration H))) (e : String) (fl : List String)
      (rs : List (HookRegistration H))
      → lookup e hooks ≡ some rs
      → any (str_eq e) fl ≡ false
      → idle hooks (fl ++ e ∷ []) < idle hooks fl
  unfolding lookup
  idle-append_lt [] e fl rs h n = cc
  idle-append_lt ((f, ss) ∷ hooks) e fl rs h n = ground (
    arith,
    any-append_or f e fl,
    idle-append_le hooks e fl,
    idle-append_lt hooks e fl rs,
    eq_iff f e,
    str_eq_refl e,
  )

  -- A chain runs out of fuel only in one of its handlers.
  run_loop-fuel :
      (call : H → HookContext D → List String → Bool → Answer D × Bool) (fl : List String)
      → ((h : H) (c : HookContext D) → (call h c fl false).1 ≡ false)
      → (rs : List (HookRegistration H)) (ctx : HookContext D)
      → (run_loop call rs ctx fl false).1 ≡ false
  unfolding run_loop
  run_loop-fuel call fl safe [] ctx = refl
  run_loop-fuel call fl safe (r ∷ rs) ctx = ground (
    arith,
    safe r.handler ctx,
    run_loop-fuel call fl safe rs
        (record ctx { body = next_data ctx.body (call r.handler ctx fl false).0 }),
  )

  fire_all-fuel :
      (call : H → HookContext D → List String → Bool → Answer D × Bool) (fl : List String)
      → ((c : HookContext D) → (execute call m c fl false).1 ≡ false)
      → (es : List String) (ctx : HookContext D) → fire_all call es ctx fl false ≡ false
  unfolding fire_all
  fire_all-fuel call fl safe [] ctx = refl
  fire_all-fuel call fl safe (e ∷ es) ctx =
      rw (safe (record ctx { event = e })) (fire_all-fuel call fl safe es ctx)

  nested-fuel :
      (fuel : ℕ) (fl : List String)
      → ((c : HookContext D) → (execute (nested fuel) m c fl false).1 ≡ false)
      → (h : H) (c : HookContext D) → (nested (suc fuel) h c fl false).1 ≡ false
  unfolding nested
  nested-fuel fuel fl safe h c = fire_all-fuel (nested fuel) fl safe (fires h) c

  execute-fuel_some :
      (fuel : ℕ) (ctx : HookContext D) (fl : List String) (rs : List (HookRegistration H))
      → ((h : H) (c : HookContext D) → (nested fuel h c (fl ++ ctx.event ∷ []) false).1 ≡ false)
      → lookup ctx.event m.hooks ≡ some rs
      → any (str_eq ctx.event) fl ≡ false
      → (execute (nested fuel) m ctx fl false).1 ≡ false
  unfolding execute
  execute-fuel_some fuel ctx fl rs safe found new =
      rw new (run_loop-fuel (nested fuel) (fl ++ ctx.event ∷ []) safe (hooks_of ctx.event m) ctx)

  execute-fuel_none :
      (fuel : ℕ) (ctx : HookContext D) (fl : List String)
      → (lookup ctx.event m.hooks ≡ none) ⊎ (any (str_eq ctx.event) fl ≡ true)
      → (execute (nested fuel) m ctx fl false).1 ≡ false
  unfolding execute
  execute-fuel_none fuel ctx fl (inl missing) = elim (Bool-cases (any (str_eq ctx.event) fl)) [
    | inl again ↦ rw again refl
    | inr new ↦ rw (new, missing) refl
  ]
  execute-fuel_none fuel ctx fl (inr again) = rw again refl

  -- Handlers may fire any events, those of handlers that fire them again included: nesting as deep
  -- as there are events that have handlers and are not in flight is enough, whatever the answers.
  pub execute_terminates :
      (fuel : ℕ) (ctx : HookContext D) (fl : List String)
      → idle m.hooks fl ≤ fuel
      → (execute (nested fuel) m ctx fl false).1 ≡ false
  execute_terminates zero ctx fl h = elim (Option-cases (lookup ctx.event m.hooks)) [
    | inl missing ↦ execute-fuel_none zero ctx fl (inl missing)
    | inr (rs, found) ↦ elim (Bool-cases (any (str_eq ctx.event) fl)) [
      | inl again ↦ execute-fuel_none zero ctx fl (inr again)
      | inr new ↦ absurd (omega (arith, h, idle-append_lt m.hooks ctx.event fl rs found new))
    ]
  ]
  execute_terminates (suc fuel) ctx fl h = elim (Option-cases (lookup ctx.event m.hooks)) [
    | inl missing ↦ execute-fuel_none (suc fuel) ctx fl (inl missing)
    | inr (rs, found) ↦ elim (Bool-cases (any (str_eq ctx.event) fl)) [
      | inl again ↦ execute-fuel_none (suc fuel) ctx fl (inr again)
      | inr new ↦
          let fl' = fl ++ ctx.event ∷ [] in
          let less : idle m.hooks fl' ≤ fuel =
            omega (arith, h, idle-append_lt m.hooks ctx.event fl rs found new) in
          execute-fuel_some (suc fuel) ctx fl rs
            (nested-fuel fuel fl' (λ c. execute_terminates fuel c fl' less)) found new
    ]
  ]
