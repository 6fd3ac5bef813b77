-- ===== src/Batch/Tests.antt =====
-- Runs of a batch, and the theorems at concrete inputs.
use wp_open_omega.Batch.Content.{
  codes, BulkMessageContent, replace_vars, send_message, send_text_message, apply_variables,
}
use wp_open_omega.Batch.{
  BatchStatus, BulkMessage, MessageBatch, SendBulkMessageDto, World, ok, create_batch, cancel_batch,
  resolve_final_batch_status,
}
use wp_open_omega.Batch.Process.{Turn, attempt, count_attempt, end_round, process_batch}
use wp_open_omega.Batch.Requests.{IsStoppedAt, process_batch_stops}
use wp_open_omega.Batch.Placeholders.{replace_vars-braceless}
use wp_open_omega.Common.{
  ℕ, String, ◌≡◌, refl, Bool, true, false, none, some, [], ◌∷◌, arith, pos, negsuc, ◌==◌,
}

abbrev greeting : BulkMessageContent
greeting = record {
  text = some (codes "Hi {name}, {n}!");
  caption = none;
  image = none;
  video = none;
  audio = none;
  document = none;
}

abbrev to_chat : String → String → BulkMessage
to_chat chat kind = record {
  chat_id = chat;
  kind = kind;
  content = greeting;
  variables = some ((codes "name", codes "Ana") ∷ (codes "n", []) ∷ []);
}

greeting_call :
    send_message "text" (apply_variables greeting (to_chat "a" "text").variables)
    ≡ some (send_text_message (codes "Hi Ana, {n}!"))
unfolding send_message apply_variables
greeting_call = refl

abbrev request : SendBulkMessageDto
request = record {
  batch_id = some "b1";
  messages = to_chat "a" "text" ∷ to_chat "b" "poll" ∷ to_chat "c" "text" ∷ [];
  options = record { delay_between_messages = none; randomize_delay = none; stop_on_error = none };
}

abbrev stored : MessageBatch
stored = record {
  batch_id = "b1";
  session_id = "s";
  status = BatchStatus.pending;
  messages = request.messages;
  options = record { delay_between_messages = 3000; randomize_delay = true; stop_on_error = false };
  progress = record { total = 3; sent = 0; failed = 0; pending = pos 3; cancelled = pos 0 };
  results = [];
  current_index = 0;
}

created : create_batch "s" request "b0" true (λ id. false) ≡ ok stored
unfolding create_batch
created = refl

-- The engine answers every call; with `at`, a `cancelBatch` runs while that message is being sent.
abbrev turn_with : (ℕ → Bool) → ℕ → Turn
turn_with at i = record {
  answer = λ c. some "id";
  cancel_at_send = at i;
  cancel_at_save = false;
  cancel_at_sleep = false;
}

abbrev idle : World
idle = record { row = some stored; held = stored; flag = none }

abbrev ended : (ℕ → Bool) → MessageBatch
ended at = (process_batch (turn_with at) false false true stored idle).held

-- What a run of a batch computes with.
running : Unit {0}
unfolding process_batch cancel_batch attempt send_message end_round count_attempt
    resolve_final_batch_status
running = tt

full_run :
    ((ended (λ i. false)).status ≡ BatchStatus.completed)
    × ((ended (λ i. false)).progress
        ≡ record { total = 3; sent = 2; failed = 1; pending = pos 0; cancelled = pos 0 })
unfolding running
full_run = (refl, refl)

cancelled_run :
    ((ended (λ i. i == 1)).status ≡ BatchStatus.cancelled)
    × ((ended (λ i. i == 1)).progress
        ≡ record { total = 3; sent = 1; failed = 1; pending = pos 0; cancelled = pos 1 })
unfolding running
cancelled_run = (refl, refl)

-- The row that an early cancellation has written is read by `processBatch`: all is sent, and the
-- count of the messages that are left falls below zero.
lost_cancellation :
    let w = (cancel_batch "s" "b1" idle).0 in
    let b = record stored {
      status = BatchStatus.cancelled;
      progress = record { total = 3; sent = 0; failed = 0; pending = pos 0; cancelled = pos 3 };
    } in
    (w.row ≡ some b)
    × ((process_batch (turn_with (λ i. false)) false false true b w).held.progress
        ≡ record { total = 3; sent = 2; failed = 1; pending = negsuc 2; cancelled = pos 3 })
unfolding running
lost_cancellation = (refl, refl)

process_batch_stops_example :
    (row : MessageBatch) × ((process_batch
        (turn_with (λ i. i == 1))
        false
        true
        true
        stored
        idle).row
      ≡ some row)
    × IsStoppedAt 1 false row
process_batch_stops_example =
    process_batch_stops (turn_with (λ i. i == 1)) false true "s" "b0" request (λ id. false) stored
      idle 1 created (omega arith) refl

replace_vars-braceless_example :
    replace_vars ((codes "a", codes "b") ∷ []) (codes "a}") ≡ codes "a}"
replace_vars-braceless_example =
    replace_vars-braceless ((codes "a", codes "b") ∷ []) (codes "a}") (omega arith)
