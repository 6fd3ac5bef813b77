-- ===== src/Batch/Outcome.antt =====
-- How a batch ends.
use wp_open_omega.Batch.{
  BatchStatus, MessageBatch, World, SendBulkMessageDto, ok, is_cancelled, create_batch,
  resolve_final_batch_status, cancel_progress, cancel_batch, cancelled_row, is_over,
}
use wp_open_omega.Batch.Process.{cancel_if, save}
use wp_open_omega.Batch.Progress.{IsCounted}
use wp_open_omega.Common.{
  ℕ, ◌+◌, ◌<◌, ◌≡◌, refl, ◌⊎◌, inl, inr, String, Bool, true, false, ◌&&◌, some, arith, pos, length,
  Bool-cases, if◌then◌else◌, Option, str_eq,
}

-- The counters of a batch that is over add up to its size, each tried message has a result, and the
-- status says what became of the `left` messages that were not tried.
pub record IsSettled (b : MessageBatch) : Type 0 where
  pub left : ℕ
  pub adds_up : b.progress.sent + b.progress.failed + left ≡ b.progress.total
  pub recorded : length b.results ≡ b.progress.sent + b.progress.failed
  pub by_status :
      ((b.status ≡ BatchStatus.cancelled)
        × (b.progress.pending ≡ pos 0)
        × (b.progress.cancelled ≡ pos left))
      ⊎ (((b.status ≡ BatchStatus.failed)
            × (b.progress.pending ≡ pos left)
            × (b.progress.cancelled ≡ pos 0)
            × (0 < b.progress.failed))
          ⊎ ((b.status ≡ BatchStatus.completed)
              × (left ≡ 0)
              × (b.progress.pending ≡ pos 0)
              × (b.progress.cancelled ≡ pos 0)
              × ((b.progress.failed ≡ 0) ⊎ (0 < b.progress.sent))))

-- The batch as the final update saves it.
abbrev pub final : World × Bool → MessageBatch
final (w, stopped) = record (w.held) {
  status = resolve_final_batch_status (is_cancelled w) stopped w.held.progress;
  progress = if is_cancelled w then cancel_progress w.held.progress else w.held.progress;
}

-- A `cancelBatch` behind a save either leaves the row or cancels a batch that is not over.
pub cancel_if-row :
    (P : MessageBatch → Type 0) (c : Bool) (b held : MessageBatch) (flag : Option Bool)
    → P b
    → (is_over b.status ≡ false → P (cancelled_row b))
    → (r : MessageBatch) × ((cancel_if c (record { row = some b; held = held; flag = flag })).row
        ≡ some r)
      × P r
unfolding cancel_batch
cancel_if-row P false b held flag p q = (b, refl, p)
cancel_if-row P true b held flag p q =
    elim (Bool-cases (str_eq b.batch_id held.batch_id && str_eq b.session_id held.session_id)) [
      | inl own ↦ elim (Bool-cases (is_over b.status)) [
        | inl over ↦ (b, rw (own, over) refl, p)
        | inr live ↦ (cancelled_row b, rw (own, live) refl, q live)
      ]
      | inr foreign ↦ (b, rw foreign refl, p)
    ]

pub create_batch-IsCounted :
    (session random : String) (dto : SendBulkMessageDto) (active : Bool) (exists : String → Bool)
    (b : MessageBatch)
    → create_batch session dto random active exists ≡ ok b
    → (b.current_index ≡ 0) × IsCounted (length b.messages) b
unfolding create_batch
create_batch-IsCounted session random dto active exists b e = (ground arith, ground arith)

pub create_batch-results :
    (session random : String) (dto : SendBulkMessageDto) (active : Bool) (exists : String → Bool)
    (b : MessageBatch)
    → create_batch session dto random active exists ≡ ok b
    → length b.results ≡ 0
unfolding create_batch
create_batch-results session random dto active exists b e = ground arith

-- The world of the first save, and the one in which the loop starts.
abbrev pub initial : MessageBatch → World → World
initial b w = record w { held = record b { status = BatchStatus.processing }; flag = some true }

abbrev pub started : Bool → MessageBatch → World → World
started c b w = cancel_if c (save (initial b w))
