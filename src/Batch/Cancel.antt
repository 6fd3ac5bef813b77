-- ===== src/Batch/Cancel.antt =====
-- Cancelling a batch while it is processed, and before.
use native.Mathlib.Decide.{ℕ_discrete}
use wp_open_omega.Batch.{
  BatchStatus, BulkMessage, MessageBatch, World, is_cancelled, is_over, cancel_batch, cancelled_row,
}
use wp_open_omega.Batch.Process.{
  Turn, cancel_if, save, attempt, count_attempt, is_none, end_round, send_loop,
}
use wp_open_omega.Batch.Progress.{
  held-cancel_if, held-end_round, tried, indexed, length-count_attempt,
}
use wp_open_omega.Common.{
  ℕ, suc, ◌+◌, ◌≤◌, ◌<◌, ◌≡◌, refl, sym, subst, ap, ◌∙◌, ◌⊎◌, inl, inr, String, Bool, true, false,
  ◌&&◌, Option, some, List, [], ◌∷◌, arith, length, Bool-cases, if◌then◌else◌, eq_iff,
}

-- The row is that of the batch that is processed, and `cancelBatch` will take it, unless the batch
-- has been cancelled already.
pub record IsLive (w : World) : Type 0 where
  pub stored : MessageBatch
  pub row : w.row ≡ some stored
  pub id : stored.batch_id ≡ w.held.batch_id
  pub session : stored.session_id ≡ w.held.session_id
  pub processing : w.held.status ≡ BatchStatus.processing
  pub takes : (is_over stored.status ≡ false) ⊎ (is_cancelled w ≡ true)

cancel_if-true : (w : World) → IsLive w → is_cancelled (cancel_if true w) ≡ true
unfolding cancel_batch
cancel_if-true w h = ground (
  arith,
  h.row,
  h.id,
  h.session,
  h.takes,
  eq_iff h.stored.batch_id w.held.batch_id,
  eq_iff h.stored.session_id w.held.session_id,
)

-- A batch once cancelled stays so: the loop never sets the flag again.
cancel_if-keeps :
    (c : Bool) (w : World) → is_cancelled w ≡ true → is_cancelled (cancel_if c w) ≡ true
unfolding cancel_batch
cancel_if-keeps c w h = ground arith

end_round-keeps :
    (i : ℕ) (t : Turn) (w : World) → is_cancelled w ≡ true → is_cancelled (end_round i t w) ≡ true
unfolding end_round
end_round-keeps i t w h = ground (
  arith,
  cancel_if-keeps t.cancel_at_save (save (indexed i w)),
  cancel_if-keeps t.cancel_at_sleep (cancel_if t.cancel_at_save (save (indexed i w))),
)

send_loop-cancelled :
    (turns : ℕ → Turn) (i : ℕ) (ms : List BulkMessage) (w : World)
    → is_cancelled w ≡ true
    → send_loop turns i ms w ≡ (w, false)
unfolding send_loop
send_loop-cancelled turns i [] w h = refl
send_loop-cancelled turns i (m ∷ ms) w h = rw h refl

cancel_if-taken :
    (w : World) (h : IsLive w)
    → is_over h.stored.status ≡ false
    → cancel_if true w ≡ record w { row = some (cancelled_row h.stored); flag = some false }
unfolding cancel_batch
cancel_if-taken w h live = ground (
  arith,
  h.row,
  eq_iff h.stored.batch_id w.held.batch_id,
  eq_iff h.stored.session_id w.held.session_id,
)

cancel_if-refused :
    (w : World) (h : IsLive w) → is_over h.stored.status ≡ true → cancel_if true w ≡ w
unfolding cancel_batch
cancel_if-refused w h over = ground (arith, h.row)

pub cancel_if-IsLive : (c : Bool) (w : World) → IsLive w → IsLive (cancel_if c w)
cancel_if-IsLive false w h = h
cancel_if-IsLive true w h = elim (Bool-cases (is_over h.stored.status)) [
  | inl over ↦ subst IsLive (sym (cancel_if-refused w h over)) h
  | inr live ↦ subst IsLive (sym (cancel_if-taken w h live)) (record {
    stored = cancelled_row h.stored;
    row = refl;
    id = h.id;
    session = h.session;
    processing = h.processing;
    takes = inr refl;
  })
]

pub save-IsLive : (w : World) → w.held.status ≡ BatchStatus.processing → IsLive (save w)
save-IsLive w h = record {
  stored = w.held;
  row = refl;
  id = refl;
  session = refl;
  processing = h;
  takes = inl (rw h refl);
}

count_attempt-IsLive :
    (m : BulkMessage) (sent : Option String) (w : World)
    → IsLive w
    → IsLive (count_attempt m sent w)
unfolding count_attempt
count_attempt-IsLive m sent w h = record {
  stored = h.stored;
  row = h.row;
  id = h.id;
  session = h.session;
  processing = h.processing;
  takes = h.takes;
}

indexed-IsLive : (i : ℕ) (w : World) → IsLive w → IsLive (indexed i w)
indexed-IsLive i w h = record {
  stored = h.stored;
  row = h.row;
  id = h.id;
  session = h.session;
  processing = h.processing;
  takes = h.takes;
}

tried-IsLive : (t : Turn) (m : BulkMessage) (w : World) → IsLive w → IsLive (tried t m w)
tried-IsLive t m w h =
    count_attempt-IsLive m (attempt t m) (cancel_if t.cancel_at_send w)
      (cancel_if-IsLive t.cancel_at_send w h)

if-IsLive : (b : Bool) (v w : World) → IsLive v → IsLive w → IsLive (if b then v else w)
if-IsLive true v w h k = h
if-IsLive false v w h k = k

end_round-IsLive : (i : ℕ) (t : Turn) (w : World) → IsLive w → IsLive (end_round i t w)
unfolding end_round
end_round-IsLive i t w h =
    let saved =
      cancel_if-IsLive t.cancel_at_save (save (indexed i w))
        (save-IsLive (indexed i w) h.processing) in
    let ended = if-IsLive _ _ _ saved (indexed-IsLive i w h) in
    if-IsLive _ _ _ (cancel_if-IsLive t.cancel_at_sleep _ ended) ended

-- Where a loop that is cancelled in round `j` may stand at its end.
pub record IsStopped (w : World) (i j : ℕ) (r : World × Bool) : Type 0 where
  pub over : (is_cancelled r.0 ≡ true) ⊎ ((r.1 ≡ true) × (w.held.options.stop_on_error ≡ true))
  pub tries : length r.0.held.results + i ≤ length w.held.results + j + 1

tried-length :
    (t : Turn) (m : BulkMessage) (w : World)
    → length (tried t m w).held.results ≡ suc (length w.held.results)
tried-length t m w =
    length-count_attempt m (attempt t m) (cancel_if t.cancel_at_send w)
    ∙ ap (λ b. suc (length b.results)) (held-cancel_if t.cancel_at_send w)

end_round-length :
    (i : ℕ) (t : Turn) (w : World) → length (end_round i t w).held.results ≡ length w.held.results
end_round-length i t w = ap (λ b. length b.results) (held-end_round i t w)

round-options :
    (i : ℕ) (t : Turn) (m : BulkMessage) (w : World)
    → (end_round i t (tried t m w)).held.options.stop_on_error ≡ w.held.options.stop_on_error
unfolding count_attempt
round-options i t m w =
    ap (λ b. b.options.stop_on_error) (held-end_round i t (tried t m w))
    ∙ ap (λ b. b.options.stop_on_error) (held-cancel_if t.cancel_at_send w)

tried-cancelled :
    (t : Turn) (m : BulkMessage) (w : World)
    → IsLive w
    → t.cancel_at_send ≡ true
    → is_cancelled (tried t m w) ≡ true
unfolding count_attempt
tried-cancelled t m w h c = rw c (cancel_if-true w h)

pub send_loop-IsStopped :
    (turns : ℕ → Turn) (i j : ℕ) (ms : List BulkMessage) (w : World)
    → IsLive w
    → i ≤ j
    → j < i + length ms
    → (turns j).cancel_at_send ≡ true
    → IsStopped w i j (send_loop turns i ms w)
unfolding send_loop
send_loop-IsStopped turns i j [] w h le lt c = absurd (omega arith)
send_loop-IsStopped turns i j (m ∷ ms) w h le lt c =
    let t = turns i in
    let w1 = tried t m w in
    let longer = tried-length t m w in
    let longer' = end_round-length i t w1 in
    elim (Bool-cases (is_cancelled w)) [
      | inl gone ↦ rw gone (record { over = inl gone; tries = omega arith })
      | inr live ↦ elim (Bool-cases (is_none (attempt t m) && w.held.options.stop_on_error)) [
        | inl stopped ↦
            rw (live, stopped) (record { over = inr (refl, ground arith); tries = omega arith })
        | inr goes_on ↦
            rw (live, goes_on)
              (elim (ℕ_discrete i j) [
                | yes same ↦
                    let last : is_cancelled (end_round i t w1) ≡ true =
                      end_round-keeps i t w1 (tried-cancelled t m w h (rw same c)) in
                    rw (send_loop-cancelled turns (i + 1) ms (end_round i t w1) last)
                      (record { over = inl last; tries = omega arith })
                | no later ↦
                    let ih =
                      send_loop-IsStopped turns (i + 1) j ms (end_round i t w1)
                        (end_round-IsLive i t w1 (tried-IsLive t m w h)) (omega arith) (omega arith)
                        c in
                    record {
                      over = elim ih.over [
                        | inl cancelled ↦ inl cancelled
                        | inr (failed, stop) ↦ inr (failed, sym (round-options i t m w) ∙ stop)
                      ];
                      tries = omega (arith, ih.tries);
                    }
              ])
      ]
    ]
