-- ===== src/Webhook/QueueTests.antt =====
-- Runs of the queue's worker.
use wp_open_omega.Webhook.Delivery.{Answer, response, failed}
use wp_open_omega.Webhook.Worker.{process, calls, succeeds, calls-hooks}
use wp_open_omega.Common.{
  ℕ, zero, suc, max, ◌≡◌, refl, Bool, true, false, [], ◌∷◌, if◌then◌else◌, length,
}

-- Of three attempts the second is answered with 200; every URL is safe, and writes succeed.
abbrev answers : ℕ → Answer
answers zero = failed
answers (suc n) = response 200 false

abbrev always : ℕ → Bool
always n = true

second_call : (calls 3 true always answers always 3 0).delivered_hooks ≡ 2 ∷ []
unfolding calls process
second_call = refl

calls-hooks_example :
    ((calls 3 true always answers always (max 1 3) 0).completed
      ≡ succeeds 3 true always answers always (max 1 3) 0)
    × ((calls 3 true always answers always (max 1 3) 0).error_hooks
        ≡ (if succeeds 3 true always answers always (max 1 3) 0 then [] else max 1 3 ∷ []))
    × (length (calls 3 true always answers always (max 1 3) 0).delivered_hooks
        ≡ (if succeeds 3 true always answers always (max 1 3) 0 then 1 else 0))
    × (length (calls 3 true always answers always (max 1 3) 0).triggered
        ≡ (if succeeds 3 true always answers always (max 1 3) 0 then 1 else 0))
calls-hooks_example = calls-hooks 3 true always answers always
