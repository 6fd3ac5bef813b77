-- ===== src/Batch/Progress.antt =====
-- The counters of a batch while it is processed.
use wp_open_omega.Batch.{BulkMessage, MessageBatch, World, is_cancelled, cancel_batch}
use wp_open_omega.Batch.Process.{
  Turn, cancel_if, save, attempt, count_attempt, is_none, end_round, send_loop,
}
use wp_open_omega.Common.{
  ℕ, suc, ◌+◌, ◌<◌, ◌≡◌, refl, inl, inr, String, Bool, true, false, ◌&&◌, Option, none, some, List,
  [], ◌∷◌, arith, pos, length, length-append, Bool-cases,
}

-- `n` messages are left, each message that was tried has its result, and nothing is lost.
pub record IsCounted (n : ℕ) (b : MessageBatch) : Type 0 where
  pub left : b.progress.pending ≡ pos n
  pub tried : b.progress.sent + b.progress.failed + n ≡ b.progress.total
  pub kept : b.progress.cancelled ≡ pos 0
  pub recorded : length b.results ≡ b.progress.sent + b.progress.failed

pub held-cancel_if : (c : Bool) (w : World) → (cancel_if c w).held ≡ w.held
unfolding cancel_batch
held-cancel_if c w = ground arith

pub length-count_attempt :
    (m : BulkMessage) (sent : Option String) (w : World)
    → length (count_attempt m sent w).held.results ≡ suc (length w.held.results)
unfolding count_attempt
length-count_attempt m sent w = omega (arith, length-append w.held.results)

count_attempt-IsCounted :
    (n : ℕ) (m : BulkMessage) (sent : Option String) (w : World)
    → IsCounted (suc n) w.held
    → IsCounted n (count_attempt m sent w).held
unfolding count_attempt
count_attempt-IsCounted n m none w h = ground (arith, length-count_attempt m none w)
count_attempt-IsCounted n m (some id) w h = ground (arith, length-count_attempt m (some id) w)

-- The world when a round ends, before its save and its delay.
abbrev pub indexed : ℕ → World → World
indexed i w = record w { held = record (w.held) { current_index = i + 1 } }

pub held-end_round :
    (i : ℕ) (t : Turn) (w : World)
    → (end_round i t w).held ≡ record (w.held) { current_index = i + 1 }
unfolding end_round
held-end_round i t w = ground (
  arith,
  held-cancel_if t.cancel_at_save (save (indexed i w)),
  held-cancel_if t.cancel_at_sleep (cancel_if t.cancel_at_save (save (indexed i w))),
  held-cancel_if t.cancel_at_sleep (indexed i w),
)

-- What the loop leaves: `left` messages were not tried, and none unless it was cancelled or it
-- stopped on an error.
pub record Looped (r : World × Bool) : Type 0 where
  pub left : ℕ
  pub counted : IsCounted left r.0.held
  pub all_tried : is_cancelled r.0 ≡ false → r.1 ≡ false → left ≡ 0
  pub failed_once : r.1 ≡ true → 0 < r.0.held.progress.failed

-- The world in a round, when the message has been tried.
abbrev pub tried : Turn → BulkMessage → World → World
tried t m w = count_attempt m (attempt t m) (cancel_if t.cancel_at_send w)

tried-IsCounted :
    (n : ℕ) (t : Turn) (m : BulkMessage) (w : World)
    → IsCounted (suc n) w.held
    → IsCounted n (tried t m w).held
tried-IsCounted n t m w h =
    count_attempt-IsCounted n m (attempt t m) (cancel_if t.cancel_at_send w)
      (rw (held-cancel_if t.cancel_at_send w) h)

failed-count_attempt :
    (m : BulkMessage) (sent : Option String) (w : World)
    → is_none sent ≡ true
    → 0 < (count_attempt m sent w).held.progress.failed
unfolding count_attempt
failed-count_attempt m none w h = omega arith
failed-count_attempt m (some id) w h = cc

pub send_loop-Looped :
    (turns : ℕ → Turn) (i : ℕ) (ms : List BulkMessage) (w : World)
    → IsCounted (length ms) w.held
    → Looped (send_loop turns i ms w)
unfolding send_loop
send_loop-Looped turns i [] w h = record {
  left = 0;
  counted = h;
  all_tried = λ _ _. refl;
  failed_once = λ p. cc;
}
send_loop-Looped turns i (m ∷ ms) w h =
    let t = turns i in
    let w1 = tried t m w in
    let h1 = tried-IsCounted (length ms) t m w h in
    elim (Bool-cases (is_cancelled w)) [
      | inl gone ↦ rw gone (record {
        left = suc (length ms);
        counted = h;
        all_tried = λ p _. cc;
        failed_once = λ p. cc;
      })
      | inr live ↦ elim (Bool-cases (is_none (attempt t m) && w.held.options.stop_on_error)) [
        | inl stopped ↦
            rw (live, stopped)
              (record {
                left = length ms;
                counted = record {
                  left = h1.left;
                  tried = h1.tried;
                  kept = h1.kept;
                  recorded = h1.recorded;
                };
                all_tried = λ _ p. cc;
                failed_once = λ _.
                    failed-count_attempt m (attempt t m) (cancel_if t.cancel_at_send w)
                      (ground arith);
              })
        | inr goes_on ↦
            rw (live, goes_on)
              (send_loop-Looped turns (i + 1) ms (end_round i t w1) (
                rw (held-end_round i t w1) (record {
                  left = h1.left;
                  tried = h1.tried;
                  kept = h1.kept;
                  recorded = h1.recorded;
                })))
      ]
    ]
