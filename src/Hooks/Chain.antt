-- ===== src/Hooks/Chain.antt =====
-- How the handlers of an event follow one another, and what an answer does to those behind it.
use wp_open_omega.Common.{
  String, ◌≡◌, refl, true, false, List, [], ◌∷◌, ◌++◌, arith, if◌then◌else◌, str_eq, any,
  str_eq_refl, Bool-cases, inl, inr,
}
use wp_open_omega.Hooks.{HookRegistration, HookManager, hooks_of}
use wp_open_omega.Hooks.Execute.{HookContext, Answer, threw, next_data, stops, run_loop, execute}

module _ {ℓ κ μ} {H : Type ℓ} {D : Type κ} {W : Type μ}
    (call : H → HookContext D → List String → W → Answer D × W) where
  -- The handlers behind a list of handlers run only if none of the list stopped the chain, on the
  -- data and the state that the list left; otherwise the list's result is the result.
  pub run_loop-append :
      (rs ss : List (HookRegistration H)) (ctx : HookContext D) (fl : List String) (w : W)
      → run_loop call (rs ++ ss) ctx fl w ≡ (
          let ((continues, body), w') = run_loop call rs ctx fl w in
          if continues
          then run_loop call ss (record ctx { body = body }) fl w'
          else ((false, body), w'))
  unfolding run_loop
  run_loop-append [] ss ctx fl w = refl
  run_loop-append (r ∷ rs) ss ctx fl w =
      let (answer, w') = call r.handler ctx fl w in
      let ctx' = record ctx { body = next_data ctx.body answer } in
      elim (Bool-cases (stops answer)) [
        | inl stopped ↦ rw stopped refl
        | inr went ↦ rw went (run_loop-append rs ss ctx' fl w')
      ]

  -- A handler that throws and leaves the state alone makes no difference to the chain, wherever it
  -- stands.
  pub run_loop-throwing :
      (rs : List (HookRegistration H)) (r : HookRegistration H) (ss : List (HookRegistration H))
      (ctx : HookContext D) (fl : List String) (w : W)
      → ((c : HookContext D) (v : W) → call r.handler c fl v ≡ (threw, v))
      → run_loop call (rs ++ r ∷ ss) ctx fl w ≡ run_loop call (rs ++ ss) ctx fl w
  unfolding run_loop
  run_loop-throwing [] r ss ctx fl w throws = rw (throws ctx w) refl
  run_loop-throwing (s ∷ rs) r ss ctx fl w throws =
      let (answer, w') = call s.handler ctx fl w in
      let ctx' = record ctx { body = next_data ctx.body answer } in
      rw (run_loop-throwing rs r ss ctx' fl w' throws) refl

any-append : (e : String) (fl : List String) → any (str_eq e) (fl ++ e ∷ []) ≡ true
any-append e [] = rw (str_eq_refl e) refl
any-append e (f ∷ fl) = ground (arith, any-append e fl)

module _ {ℓ κ μ} {H : Type ℓ} {D : Type κ} {W : Type μ}
    (call call' : H → HookContext D → List String → W → Answer D × W) where
  -- `execute` of an event runs handlers only while the event is in flight: what they would do
  -- outside of it cannot show. So two behaviours of the handlers that agree wherever the event is
  -- in flight give the same result.
  pub execute-in_flight :
      (m : HookManager H) (ctx : HookContext D) (fl : List String) (w : W)
      → ((h : H) (c : HookContext D) (g : List String) (v : W)
          → any (str_eq ctx.event) g ≡ true
          → call h c g v ≡ call' h c g v)
      → execute call m ctx fl w ≡ execute call' m ctx fl w
  unfolding execute
  execute-in_flight m ctx fl w same =
      rw (go (hooks_of ctx.event m) ctx (fl ++ ctx.event ∷ []) w (any-append ctx.event fl)) refl
    where
      go :
          (rs : List (HookRegistration H)) (c : HookContext D) (g : List String) (v : W)
          → any (str_eq ctx.event) g ≡ true
          → run_loop call rs c g v ≡ run_loop call' rs c g v
      go [] c g v i = refl
      go (r ∷ rs) c g v i =
          let (answer, v') = call' r.handler c g v in
          let c' = record c { body = next_data c.body answer } in
          rw (same r.handler c g v i) (rw (go rs c' g v' i) refl)
