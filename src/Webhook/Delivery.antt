-- ===== src/Webhook/Delivery.antt =====
-- Direct delivery with retries: `deliverWebhook` of src/modules/webhook/webhook.service.ts.
use wp_open_omega.Common.{
  ℕ, zero, suc, ◌+◌, ◌-◌, ◌*◌, ◌≤◌, max, ◌≡◌, refl, ap, ◌∙◌, Bool, true, false, not, ◌&&◌, ◌||◌,
  List, [], ◌∷◌, arith, if◌then◌else◌, length, ltb, leb,
}

-- What a request is answered with, and what became of an attempt.
pub data Answer : Type 0 where
  failed : Answer
  response : ℕ → Bool → Answer

pub data Attempt : Type 0 where
  blocked request_failed redirected http_error delivered : Attempt

-- `response.ok`
abbrev pub is_ok : ℕ → Bool
is_ok status = leb 200 status && leb status 299

abbrev answered : Bool → Answer → Attempt
answered protect failed = request_failed
answered protect (response status opaque_redirect) =
    if protect && (opaque_redirect || (leb 300 status && ltb status 400))
    then redirected
    else if is_ok status
    then delivered
    else http_error

-- One attempt: the check of the URL, the request, the check against a redirect, the status.
abbrev pub try_once : Bool → Bool → Answer → Attempt
try_once protect safe answer = if protect && not safe then blocked else answered protect answer

abbrev pub is_delivered : Attempt → Bool
is_delivered delivered = true
is_delivered _ = false

-- The attempts in their order, each with the retry count of its header, the waits between them,
-- and whether the call returns or throws.
pub record Run : Type 0 where
  pub attempts : List (ℕ × Attempt)
  pub waits : List ℕ
  pub success : Bool

abbrev finished : ℕ → Attempt → Run
finished attempt outcome = record {
  attempts = (attempt - 1, outcome) ∷ [];
  waits = [];
  success = is_delivered outcome;
}

abbrev retried : ℕ → ℕ → Attempt → Run → Run
retried delay attempt outcome rest = record {
  attempts = (attempt - 1, outcome) ∷ rest.attempts;
  waits = delay * attempt ∷ rest.waits;
  success = rest.success;
}

-- `safe` and `answer` give what the check of the URL and the request come to at each attempt. The
-- fuel is the number of attempts still to come.
module _ (retry_count delay : ℕ) (protect : Bool) (safe : ℕ → Bool) (answer : ℕ → Answer) where
  abbrev pub outcome : ℕ → Attempt
  outcome attempt = try_once protect (safe attempt) (answer attempt)

  unfoldable pub deliver_from : ℕ → ℕ → Run
  deliver_from zero attempt = finished attempt (outcome attempt)
  deliver_from (suc fuel) attempt =
      let rest = deliver_from fuel (suc attempt) in
      if is_delivered (outcome attempt)
      then finished attempt (outcome attempt)
      else if ltb attempt retry_count
      then retried delay attempt (outcome attempt) rest
      else finished attempt (outcome attempt)

  unfoldable pub deliver_webhook : Run
  deliver_webhook = deliver_from retry_count 1

  -- Whether one of `n` attempts from the given one on is a success.
  abbrev pub succeeds : ℕ → ℕ → Bool
  succeeds zero attempt = false
  succeeds (suc n) attempt = is_delivered (outcome attempt) || succeeds n (suc attempt)

  deliver_from-success :
      (left attempt fuel : ℕ)
      → left ≡ retry_count - attempt
      → retry_count ≤ fuel + attempt
      → (deliver_from fuel attempt).success ≡ succeeds (suc left) attempt
  unfolding deliver_from
  deliver_from-success zero attempt zero h enough = ground arith
  deliver_from-success (suc left) attempt zero h enough = absurd (omega arith)
  deliver_from-success zero attempt (suc fuel) h enough = ground arith
  deliver_from-success (suc left) attempt (suc fuel) h enough =
      ground (arith, deliver_from-success left (suc attempt) fuel (omega arith) (omega arith))

  deliver_from-attempts :
      (left attempt fuel : ℕ)
      → left ≡ retry_count - attempt
      → (1 ≤ length (deliver_from fuel attempt).attempts)
        × (length (deliver_from fuel attempt).attempts ≤ suc left)
        × (length (deliver_from fuel attempt).waits + 1
            ≡ length (deliver_from fuel attempt).attempts)
  unfolding deliver_from
  deliver_from-attempts left attempt zero h = (omega arith, omega arith, omega arith)
  deliver_from-attempts zero attempt (suc fuel) h = ground arith
  deliver_from-attempts (suc left) attempt (suc fuel) h =
      ground (arith, deliver_from-attempts left (suc attempt) fuel (omega arith))

  -- A delivery returns exactly if one of the first max 1 retryCount attempts is a success; it makes
  -- no more attempts than that, and waits once less than it attempts.
  pub deliver_webhook-attempts :
      (deliver_webhook.success ≡ succeeds (max 1 retry_count) 1)
      × (1 ≤ length deliver_webhook.attempts)
      × (length deliver_webhook.attempts ≤ max 1 retry_count)
      × (length deliver_webhook.waits + 1 ≡ length deliver_webhook.attempts)
  unfolding deliver_webhook
  deliver_webhook-attempts =
      let counted = deliver_from-attempts (retry_count - 1) 1 retry_count refl in
      let most : suc (retry_count - 1) ≡ max 1 retry_count = omega arith in
      (
        deliver_from-success (retry_count - 1) 1 retry_count refl (omega arith)
            ∙ ap (λ n. succeeds n 1) most,
        counted.0,
        omega (arith, counted, most),
        counted.2,
      )
