-- ===== src/Hooks/Execute.antt =====
-- `execute` and `runHandlers` of src/core/hooks/hook-manager.service.ts. What a handler does is the
-- argument `call`: it gets the handler, its context, the events in flight on its async context (the
-- store of `AsyncLocalStorage`) and the state `W` of the rest of the program, and answers or throws.
use wp_open_omega.Common.{
  String, Bool, true, false, not, Option, List, [], ◌∷◌, ◌++◌, if◌then◌else◌, str_eq, any,
  get_or_default,
}
use wp_open_omega.Hooks.{HookRegistration, HookManager, hooks_of}

-- The fields that the manager sets; the time stamp is left out.
pub record HookContext {ℓ} (D : Type ℓ) : Type ℓ where
  pub event : String
  pub body : D
  pub session_id : Option String
  pub source : String

-- `continue`, the new data if there is some, and whether an error is attached.
pub record HookResult {ℓ} (D : Type ℓ) : Type ℓ where
  pub continues : Bool
  pub body : Option D
  pub error : Bool

pub data Answer {ℓ} (D : Type ℓ) : Type ℓ where
  returned : HookResult D → Answer D
  threw : Answer D

-- `currentData` after a handler: an answer's data count even if it stops the chain or has an error.
abbrev pub next_data {ℓ} : {D : Type ℓ} → D → Answer D → D
next_data current threw = current
next_data current (returned r) = get_or_default r.body current

-- A throw, and an attached error of an answer that continues, go to the `catch`, which goes on.
abbrev pub stops {ℓ} : {D : Type ℓ} → Answer D → Bool
stops threw = false
stops (returned r) = not r.continues

module _ {ℓ κ μ} {H : Type ℓ} {D : Type κ} {W : Type μ}
    (call : H → HookContext D → List String → W → Answer D × W) where
  unfoldable pub run_loop :
      List (HookRegistration H) → HookContext D → List String → W → (Bool × D) × W
  run_loop [] ctx in_flight w = ((true, ctx.body), w)
  run_loop (r ∷ rs) ctx in_flight w =
      let (answer, w') = call r.handler ctx in_flight w in
      let ctx' = record ctx { body = next_data ctx.body answer } in
      let rest = run_loop rs ctx' in_flight w' in
      if stops answer then ((false, ctx'.body), w') else rest

  unfoldable pub run_handlers : HookManager H → HookContext D → List String → W → (Bool × D) × W
  unfolding run_loop
  run_handlers m ctx in_flight w = run_loop (hooks_of ctx.event m) ctx in_flight w

  unfoldable pub execute : HookManager H → HookContext D → List String → W → (Bool × D) × W
  unfolding run_handlers
  execute m ctx in_flight w =
      if any (str_eq ctx.event) in_flight
      then ((true, ctx.body), w)
      else run_handlers m ctx (in_flight ++ ctx.event ∷ []) w
