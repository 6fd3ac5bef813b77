-- ===== src/Batch/Process.antt =====
-- `processBatch` of src/modules/message/bulk-message.service.ts. Other requests run while it awaits:
-- a `Turn` says how a send ends and at which of its awaits a `cancelBatch` runs.
use wp_open_omega.Batch.Content.{EngineCall, apply_variables, send_message}
use wp_open_omega.Batch.{
  BatchStatus, BatchMessageStatus, BatchMessageResult, BulkMessage, MessageBatch, World,
  is_cancelled, cancel_progress, cancel_batch, resolve_final_batch_status,
}
use wp_open_omega.Common.{
  ℕ, ◌+◌, ◌%◌, String, Bool, ◌&&◌, ◌||◌, true, false, not, Option, none, some, List, [], ◌∷◌, ◌++◌,
  ltb, ◌==◌, if◌then◌else◌, pred_ℤ, length, drop,
}

pub record Turn : Type 0 where
  -- The message's id, or `none` for a rejected promise.
  pub answer : EngineCall → Option String
  pub cancel_at_send : Bool
  pub cancel_at_save : Bool
  pub cancel_at_sleep : Bool

-- A `cancelBatch` of this batch, by its own session.
abbrev pub cancel_if : Bool → World → World
cancel_if b w = if b then (cancel_batch w.held.session_id w.held.batch_id w).0 else w

-- `batchRepository.save(batch)`
abbrev pub save : World → World
save w = record w { row = some w.held }

-- The send of one message: the engine's answer, or `none` for an error.
unfoldable pub attempt : Turn → BulkMessage → Option String
attempt t m = elim (send_message m.kind (apply_variables m.content m.variables)) [
  | none ↦ none
  | some call ↦ t.answer call
]

-- The `try` and the `catch`: the counters, and the result that is pushed.
unfoldable pub count_attempt : BulkMessage → Option String → World → World
count_attempt m sent w =
    let b = w.held in
    let p = b.progress in
    let result : BatchMessageResult = record {
      chat_id = m.chat_id;
      status = elim sent [ none ↦ BatchMessageStatus.failed | some id ↦ BatchMessageStatus.sent ];
      message_id = sent;
    } in
    record w {
      held = record b {
        progress = elim sent [
          | none ↦ record p { failed = p.failed + 1; pending = pred_ℤ p.pending }
          | some id ↦ record p { sent = p.sent + 1; pending = pred_ℤ p.pending }
        ];
        results = b.results ++ result ∷ [];
      };
    }

abbrev pub is_none : Option String → Bool
is_none none = true
is_none (some id) = false

-- The end of a round that did not stop: the index, the periodic save and the delay.
unfoldable pub end_round : ℕ → Turn → World → World
end_round i t w =
    let n = length w.held.messages in
    let w1 = record w { held = record (w.held) { current_index = i + 1 } } in
    let w2 = if i % 10 == 0 || i + 1 == n then cancel_if t.cancel_at_save (save w1) else w1 in
    if ltb (i + 1) n && not (is_cancelled w2) then cancel_if t.cancel_at_sleep w2 else w2

-- The loop, over the messages that are left; the result says whether it stopped on an error.
unfoldable pub send_loop : (ℕ → Turn) → ℕ → List BulkMessage → World → World × Bool
send_loop turns i [] w = (w, false)
send_loop turns i (m ∷ ms) w =
    let t = turns i in
    let sent = attempt t m in
    let w1 = count_attempt m sent (cancel_if t.cancel_at_send w) in
    let stopped = record w1 { held = record (w1.held) { status = BatchStatus.failed } } in
    let rest = send_loop turns (i + 1) ms (end_round i t w1) in
    if is_cancelled w
    then (w, false)
    else if is_none sent && w.held.options.stop_on_error
    then (stopped, true)
    else rest

-- The final update, with a `cancelBatch` during its save or none.
unfoldable pub finish : Bool → World × Bool → World
finish cancel_at_end (w, stopped_on_error) =
    let b = w.held in
    let was_cancelled = is_cancelled w in
    let status = resolve_final_batch_status was_cancelled stopped_on_error b.progress in
    let progress = if was_cancelled then cancel_progress b.progress else b.progress in
    let b' = record b { status = status; progress = progress } in
    let saved = cancel_if cancel_at_end (record w { held = b'; row = some b' }) in
    record saved { flag = none }

-- From the moment when the row has been read until the end: `cancel_at_start` is a `cancelBatch`
-- during the first save, `cancel_at_end` one during the last, and `active` says whether the session
-- has an engine.
unfoldable pub process_batch : (ℕ → Turn) → Bool → Bool → Bool → MessageBatch → World → World
unfolding send_loop finish
process_batch turns cancel_at_start cancel_at_end active b w =
    let started = record b { status = BatchStatus.processing } in
    let w1 = record w { held = started; flag = some true } in
    let w2 = cancel_if cancel_at_start (save w1) in
    let failed = record (w2.held) { status = BatchStatus.failed } in
    if active
    then finish cancel_at_end (send_loop turns b.current_index (drop b.current_index b.messages) w2)
    else cancel_if cancel_at_end (record w2 { held = failed; row = some failed })
