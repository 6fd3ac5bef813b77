-- ===== src/Batch/Requests.antt =====
-- What a `cancelBatch` request achieves during the processing.
use wp_open_omega.Batch.{
  BatchStatus, MessageBatch, World, SendBulkMessageDto, ok, is_cancelled, create_batch,
  resolve_final_batch_status,
}
use wp_open_omega.Batch.Process.{Turn, save, send_loop, finish, process_batch}
use wp_open_omega.Batch.Cancel.{IsLive, save-IsLive, cancel_if-IsLive, send_loop-IsStopped}
use wp_open_omega.Batch.Outcome.{
  final, cancel_if-row, initial, started, create_batch-results, create_batch-IsCounted,
}
use wp_open_omega.Batch.Progress.{held-cancel_if}
use wp_open_omega.Common.{
  ℕ, ◌+◌, ◌≤◌, ◌<◌, ◌≡◌, refl, ◌⊎◌, String, Bool, true, some, arith, length, drop, Bool-cases, inl,
  inr, sym, ap, ◌∙◌,
}

started-IsLive : (c : Bool) (b : MessageBatch) (w : World) → IsLive (started c b w)
started-IsLive c b w = cancel_if-IsLive c (save (initial b w)) (save-IsLive (initial b w) refl)

-- No message behind `j` is tried, and the batch is cancelled, or has failed where errors stop it.
abbrev pub IsStoppedAt : ℕ → Bool → MessageBatch → Type 0
IsStoppedAt j stop_on_error b =
    (length b.results ≤ j + 1)
    × ((b.status ≡ BatchStatus.cancelled)
        ⊎ ((b.status ≡ BatchStatus.failed) × (stop_on_error ≡ true)))

final-status :
    (r : World × Bool) (stop_on_error : Bool)
    → (is_cancelled r.0 ≡ true) ⊎ ((r.1 ≡ true) × (stop_on_error ≡ true))
    → ((final r).status ≡ BatchStatus.cancelled)
      ⊎ (((final r).status ≡ BatchStatus.failed) × (stop_on_error ≡ true))
unfolding resolve_final_batch_status
final-status (w, stopped) stop_on_error h = elim (Bool-cases (is_cancelled w)) [
  | inl gone ↦ rw gone (inl refl)
  | inr live ↦ elim h [
    | inl gone ↦ absurd (cc (gone, live))
    | inr (failed, stop) ↦ rw (live, failed) (inr (refl, stop))
  ]
]

-- A `cancelBatch` that runs while message `j` is being sent stops the batch: whatever the engine
-- answers, no message behind `j` is tried, and the row ends as cancelled, or as failed if the batch
-- stops on errors.
pub process_batch_stops :
    (turns : ℕ → Turn) (cancel_at_start cancel_at_end : Bool) (session random : String)
    (dto : SendBulkMessageDto) (exists : String → Bool) (b : MessageBatch) (w : World) (j : ℕ)
    → create_batch session dto random true exists ≡ ok b
    → j < length b.messages
    → (turns j).cancel_at_send ≡ true
    → (row : MessageBatch) × ((process_batch turns cancel_at_start cancel_at_end true b w).row
        ≡ some row)
      × IsStoppedAt j b.options.stop_on_error row
unfolding process_batch finish
process_batch_stops turns c d session random dto exists b w j e lt h =
    let (first, counted) = create_batch-IsCounted session random dto true exists b e in
    let s =
      send_loop-IsStopped turns b.current_index j (drop b.current_index b.messages) (started c b w)
        (started-IsLive c b w) (omega arith) (rw first (omega arith)) h in
    let held = held-cancel_if c (save (initial b w)) in
    let empty : length (started c b w).held.results ≡ 0 =
      rw held (create_batch-results session random dto true exists b e) in
    let r = send_loop turns b.current_index (drop b.current_index b.messages) (started c b w) in
    let stop : (started c b w).held.options.stop_on_error ≡ b.options.stop_on_error =
      ap (λ x. x.options.stop_on_error) held in
    let over : (is_cancelled r.0 ≡ true) ⊎ ((r.1 ≡ true) × (b.options.stop_on_error ≡ true)) =
      elim s.over [ inl gone ↦ inl gone | inr (failed, on) ↦ inr (failed, sym stop ∙ on) ] in
    let few : length r.0.held.results ≤ j + 1 = omega (arith, s.tries, empty, first) in
    cancel_if-row (IsStoppedAt j b.options.stop_on_error) d (final r) (final r) r.0.flag
      (few, final-status r b.options.stop_on_error over) (λ live. (few, inl refl))
