-- ===== src/Message/Sent.antt =====
-- What a single send leaves in the table.
use wp_open_omega.Message.{MessageStatus}
use wp_open_omega.Message.Send.{
  EngineAnswer, sent_as, blocked_address, other_error, OutgoingMessage, SendError, write_error,
  session_inactive, SendReply, responded, refused, failed,
}
use wp_open_omega.Common.{
  ℕ, String, ◌≡◌, ◌⊎◌, Bool, true, false, Option, none, some, List, str_eq, lookup,
}

-- The row of a settled send, by the engine's answer, whether the write behind it succeeded, and the
-- reply.
abbrev pub IsStored : EngineAnswer → Bool → OutgoingMessage → SendReply → OutgoingMessage → Type 0
IsStored answer saved message (responded id timestamp) row =
    (answer ≡ sent_as id timestamp)
    × (saved ≡ true)
    × (row ≡ record message {
      wa_message_id = some id;
      status = MessageStatus.sent;
      timestamp = some timestamp;
    })
IsStored answer saved message (refused e) row = ⊥
IsStored answer saved message (failed e) row =
    (row.status ≡ MessageStatus.failed)
    × (((id : String) × (timestamp : ℕ) × (answer ≡ sent_as id timestamp)
          × (saved ≡ false)
          × (e ≡ write_error)
          × (row.wa_message_id ≡ some id))
        ⊎ (((answer ≡ blocked_address) ⊎ (answer ≡ other_error))
            × (row.wa_message_id ≡ message.wa_message_id)))

-- The table of a settled send: it is refused for `error` and nothing is stored, or one row is, and
-- no other is touched.
abbrev pub IsSettled :
    EngineAnswer
    → Bool
    → Option SendError
    → String
    → OutgoingMessage
    → List (String × OutgoingMessage)
    → SendReply
    → List (String × OutgoingMessage)
    → Type 0
IsSettled answer saved error row_id message before (refused e) after =
    (error ≡ some e) × (after ≡ before)
IsSettled answer saved error row_id message before reply after =
    (row : OutgoingMessage) × (error ≡ none)
    × (lookup row_id after ≡ some row)
    × IsStored answer saved message reply row
    × ((other : String) → str_eq row_id other ≡ false → lookup other after ≡ lookup other before)

-- What a request is refused for before anything is stored.
abbrev pub send_error : Bool → Option SendError → Option SendError
send_error false error = some session_inactive
send_error true error = error
