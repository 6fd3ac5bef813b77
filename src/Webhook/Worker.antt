-- ===== src/Webhook/Worker.antt =====
-- Delivery by the queue: `process` of src/modules/queue/processors/webhook.processor.ts. One call of
-- it is one attempt; which calls the queue makes is the queue's. An attempt is the direct delivery's
-- (Delivery), and the write of the time of delivery behind it may fail too.
use wp_open_omega.Webhook.Delivery.{Attempt, Answer, is_delivered, try_once}
use wp_open_omega.Common.{
  ℕ, zero, suc, ◌+◌, max, ◌≡◌, refl, subst, ◌-◌, inl, inr, Bool, true, false, length, ◌||◌, ◌&&◌,
  List, [], ◌∷◌, ◌++◌, arith, leb, if◌then◌else◌, Bool-cases,
}

-- What a call does: the retry count of the request that it sends, the attempts of the hooks
-- `webhook:delivered` and `webhook:error`, and whether it returns.
pub record Effects : Type 0 where
  pub sent : List ℕ
  pub triggered : List ℕ
  pub delivered_hooks : List ℕ
  pub error_hooks : List ℕ
  pub completed : Bool

abbrev pub nothing : Effects
nothing = record {
  sent = [];
  triggered = [];
  delivered_hooks = [];
  error_hooks = [];
  completed = false;
}

abbrev pub then_effects : Effects → Effects → Effects
then_effects a b = record {
  sent = a.sent ++ b.sent;
  triggered = a.triggered ++ b.triggered;
  delivered_hooks = a.delivered_hooks ++ b.delivered_hooks;
  error_hooks = a.error_hooks ++ b.error_hooks;
  completed = b.completed;
}

abbrev pub is_blocked : Attempt → Bool
is_blocked Attempt.blocked = true
is_blocked _ = false

-- `safe`, `answer` and `saved` give what the check of the URL, the request and the write come to
-- where `attemptsMade` attempts have been made.
module _ (max_retries : ℕ) (protect : Bool) (safe : ℕ → Bool) (answer : ℕ → Answer)
    (saved : ℕ → Bool) where
  abbrev pub queue_attempt : ℕ → Attempt
  queue_attempt attempts_made = try_once protect (safe attempts_made) (answer attempts_made)

  -- A URL that is blocked is not requested.
  abbrev pub request_of : ℕ → List ℕ
  request_of attempts_made =
      if is_blocked (queue_attempt attempts_made) then [] else attempts_made ∷ []

  abbrev pub succeeded : ℕ → Bool
  succeeded attempts_made = is_delivered (queue_attempt attempts_made) && saved attempts_made

  unfoldable pub process : ℕ → Effects
  process attempts_made =
      if succeeded attempts_made
      then (record {
        sent = request_of attempts_made;
        triggered = attempts_made ∷ [];
        delivered_hooks = (attempts_made + 1) ∷ [];
        error_hooks = [];
        completed = true;
      })
      else (record {
        sent = request_of attempts_made;
        triggered = [];
        delivered_hooks = [];
        error_hooks = if leb max_retries (attempts_made + 1) then (attempts_made + 1) ∷ [] else [];
        completed = false;
      })

  -- The calls that are made behind `first` attempts: `n` at most, and none behind one that returns.
  unfoldable pub calls : ℕ → ℕ → Effects
  calls zero first = nothing
  calls (suc n) first =
      let rest = calls n (suc first) in
      if succeeded first then process first else then_effects (process first) rest

  -- Whether one of `n` attempts from the given one on is a success.
  abbrev pub succeeds : ℕ → ℕ → Bool
  succeeds zero first = false
  succeeds (suc n) first = succeeded first || succeeds n (suc first)

  calls-effects :
      (n first : ℕ)
      → first + suc n ≡ max 1 max_retries
      → ((calls (suc n) first).completed ≡ succeeds (suc n) first)
        × ((calls (suc n) first).error_hooks
            ≡ (if succeeds (suc n) first then [] else max 1 max_retries ∷ []))
        × (length (calls (suc n) first).delivered_hooks ≡ (if succeeds (suc n) first then 1 else 0))
        × (length (calls (suc n) first).triggered ≡ (if succeeds (suc n) first then 1 else 0))
  unfolding calls process
  calls-effects zero first h = elim (Bool-cases (succeeded first)) [
    | inl good ↦ rw good (refl, refl, refl, refl)
    | inr bad ↦
        let last : leb max_retries (first + 1) ≡ true = ground arith in
        rw (bad, last, h) (refl, refl, refl, refl)
  ]
  calls-effects (suc n) first h = elim (Bool-cases (succeeded first)) [
    | inl good ↦ rw good (refl, refl, refl, refl)
    | inr bad ↦
        let early : leb max_retries (first + 1) ≡ false = ground arith in
        rw (bad, early) (calls-effects n (suc first) (omega arith))
  ]

  -- Where the queue calls `process` until a call returns, at most max 1 maxRetries times: a call
  -- returns exactly if one of these attempts is a success; then the time of delivery is written
  -- once, `webhook:delivered` is executed once and `webhook:error` never; and otherwise
  -- `webhook:error` is executed once, for the last attempt, and nothing else.
  pub calls-hooks :
      ((calls (max 1 max_retries) 0).completed ≡ succeeds (max 1 max_retries) 0)
      × ((calls (max 1 max_retries) 0).error_hooks
          ≡ (if succeeds (max 1 max_retries) 0 then [] else max 1 max_retries ∷ []))
      × (length (calls (max 1 max_retries) 0).delivered_hooks
          ≡ (if succeeds (max 1 max_retries) 0 then 1 else 0))
      × (length (calls (max 1 max_retries) 0).triggered
          ≡ (if succeeds (max 1 max_retries) 0 then 1 else 0))
  calls-hooks =
      let most : suc (max_retries - 1) ≡ max 1 max_retries = omega arith in
      subst
        (λ n.
          ((calls n 0).completed ≡ succeeds n 0)
          × ((calls n 0).error_hooks ≡ (if succeeds n 0 then [] else max 1 max_retries ∷ []))
          × (length (calls n 0).delivered_hooks ≡ (if succeeds n 0 then 1 else 0))
          × (length (calls n 0).triggered ≡ (if succeeds n 0 then 1 else 0)))
        most (calls-effects (max_retries - 1) 0 (omega (arith, most)))
