-- ===== src/Batch.antt =====
-- Bulk messages: src/modules/message/bulk-message.service.ts and entities/message-batch.entity.ts.
-- The world of one batch is its row of the repository, the object that the running `processBatch`
-- holds (TypeORM gives each query an object of its own) and its entry of `processingBatches`.
-- Time stamps are left out. Reads and writes of the repository succeed.
pub mod Content
pub mod Process
pub mod Outcome
pub mod Progress
pub mod Cancel
pub mod Requests
pub mod Placeholders
mod Tests
use wp_open_omega.Batch.Content.{BulkMessageContent}
use wp_open_omega.Common.{
  Text, ℕ, zero, suc, ◌+◌, String, Bool, ◌&&◌, ◌||◌, true, false, not, Option, none, some, List, [],
  ◌∷◌, ◌++◌, ltb, ◌==◌, if◌then◌else◌, ℤ, pos, length, get_or_default, is_some, is_empty, str_eq,
}

pub data BatchStatus : Type 0 where
  pending processing completed cancelled failed : BatchStatus

pub data BatchMessageStatus : Type 0 where
  sent failed : BatchMessageStatus

-- `messageId` of a sent message is `some`, the error of a failed one is left out.
pub record BatchMessageResult : Type 0 where
  pub chat_id : String
  pub status : BatchMessageStatus
  pub message_id : Option String

-- `pending` is counted down, so it is an integer.
pub record BatchProgress : Type 0 where
  pub total : ℕ
  pub sent : ℕ
  pub failed : ℕ
  pub pending : ℤ
  pub cancelled : ℤ

pub record BulkMessage : Type 0 where
  pub chat_id : String
  pub kind : String
  pub content : BulkMessageContent
  pub variables : Option (List (Text × Text))

pub record BatchOptions : Type 0 where
  pub delay_between_messages : ℕ
  pub randomize_delay : Bool
  pub stop_on_error : Bool

pub record MessageBatch : Type 0 where
  pub batch_id : String
  pub session_id : String
  pub status : BatchStatus
  pub messages : List BulkMessage
  pub options : BatchOptions
  pub progress : BatchProgress
  pub results : List BatchMessageResult
  pub current_index : ℕ

-- The options of a request, each of which may be missing.
pub record BulkOptionsDto : Type 0 where
  pub delay_between_messages : Option ℕ
  pub randomize_delay : Option Bool
  pub stop_on_error : Option Bool

pub record SendBulkMessageDto : Type 0 where
  pub batch_id : Option String
  pub messages : List BulkMessage
  pub options : BulkOptionsDto

pub data BatchError : Type 0 where
  session_not_active batch_exists batch_not_found : BatchError
  already : BatchStatus → BatchError

pub data Reply {ℓ} (A : Type ℓ) : Type ℓ where
  ok : A → Reply A
  error : BatchError → Reply A

unfoldable pub resolve_final_batch_status : Bool → Bool → BatchProgress → BatchStatus
resolve_final_batch_status was_cancelled stopped_on_error p =
    if was_cancelled
    then BatchStatus.cancelled
    else if stopped_on_error
    then BatchStatus.failed
    else if ltb 0 p.failed && p.sent == 0
    then BatchStatus.failed
    else BatchStatus.completed

-- `dto.batchId || …`
abbrev pub or_random : Option String → String → String
or_random none random = random
or_random (some b) random = if is_empty b then random else b

-- What `createBatch` stores: `random` is the generated id, `active` whether the session has an
-- engine, and `exists` whether a row has the id already.
unfoldable pub create_batch :
    String → SendBulkMessageDto → String → Bool → (String → Bool) → Reply MessageBatch
create_batch session dto random active exists =
    let id = or_random dto.batch_id random in
    if not active
    then error session_not_active
    else if exists id
    then error batch_exists
    else ok (record {
      batch_id = id;
      session_id = session;
      status = BatchStatus.pending;
      messages = dto.messages;
      options = record {
        delay_between_messages = get_or_default dto.options.delay_between_messages 3000;
        randomize_delay = get_or_default dto.options.randomize_delay true;
        stop_on_error = get_or_default dto.options.stop_on_error false;
      };
      progress = record {
        total = length dto.messages;
        sent = 0;
        failed = 0;
        pending = pos (length dto.messages);
        cancelled = pos 0;
      };
      results = [];
      current_index = 0;
    })

-- The row, if there is one, the object of the running `processBatch`, and the entry of
-- `processingBatches`: `none` if it is not there.
pub record World : Type 0 where
  pub row : Option MessageBatch
  pub held : MessageBatch
  pub flag : Option Bool

-- `!this.processingBatches.get(id)`: a missing entry counts as cancelled.
abbrev pub is_cancelled : World → Bool
is_cancelled w = not (get_or_default w.flag false)

abbrev pub is_over : BatchStatus → Bool
is_over BatchStatus.completed = true
is_over BatchStatus.cancelled = true
is_over _ = false

-- The counters of a cancelled batch.
abbrev pub cancel_progress : BatchProgress → BatchProgress
cancel_progress p = record p { cancelled = p.pending; pending = pos 0 }

abbrev pub cancelled_row : MessageBatch → MessageBatch
cancelled_row b = record b { status = BatchStatus.cancelled; progress = cancel_progress b.progress }

-- `cancelBatch`, for the session that the batch belongs to; the row is looked up by both ids.
unfoldable pub cancel_batch : String → String → World → World × Reply MessageBatch
cancel_batch session id w = elim w.row [
  | none ↦ (w, error batch_not_found)
  | some b ↦
      if str_eq b.batch_id id && str_eq b.session_id session
      then if is_over b.status
        then (w, error (already b.status))
        else (record w { row = some (cancelled_row b); flag = some false }, ok (cancelled_row b))
      else (w, error batch_not_found)
]

-- `getBatchStatus`
unfoldable pub get_batch_status : String → String → World → Reply MessageBatch
get_batch_status session id w = elim w.row [
  | none ↦ error batch_not_found
  | some b ↦
      if str_eq b.batch_id id && str_eq b.session_id session then ok b else error batch_not_found
]

-- `onApplicationBootstrap`: batches that a former process left in PROCESSING have failed.
unfoldable pub on_application_bootstrap : List MessageBatch → List MessageBatch
on_application_bootstrap [] = []
on_application_bootstrap (b ∷ bs) =
    elim b.status [ BatchStatus.processing ↦ record b { status = BatchStatus.failed } | _ ↦ b ]
    ∷ on_application_bootstrap bs
