-- ===== src/Message/Store.antt =====
-- What one ack and one revocation do to the table: `onMessageAck` and `onMessageRevoked` of
-- src/modules/session/session.service.ts.
use wp_open_omega.Common.{String, ◌≡◌, refl, false, some, List, [], ◌∷◌, map, arith}
use wp_open_omega.Message.{
  DeliveryStatus, MessageStatus, Message, matches_row, advance_row, affected, on_message_ack,
  delivery_status_to_message_status,
}

-- The row is another one: of another session, or with another or no WhatsApp id.
abbrev pub IsOther : String → String → Message → Type 0
IsOther sid wid m = matches_row sid wid m ≡ false

advance_row-other :
    (sid wid : String) (target : MessageStatus) (m : Message)
    → IsOther sid wid m
    → advance_row sid wid target m ≡ m
unfolding advance_row
advance_row-other sid wid target m h = ground arith

update_status-affected_zero :
    (sid wid : String) (target : MessageStatus) (rows : List Message)
    → affected sid wid target rows ≡ 0
    → map (advance_row sid wid target) rows ≡ rows
unfolding advance_row
update_status-affected_zero sid wid target [] h = refl
update_status-affected_zero sid wid target (m ∷ rows) h =
    ground (arith, update_status-affected_zero sid wid target rows)

-- An ack whose UPDATE reports no affected row leaves the table as it was.
pub on_message_ack-noop :
    (sid wid : String) (status : DeliveryStatus) (target : MessageStatus) (rows : List Message)
    → delivery_status_to_message_status status ≡ some target
    → affected sid wid target rows ≡ 0
    → (on_message_ack sid wid status rows).0 ≡ rows
unfolding on_message_ack
on_message_ack-noop sid wid status target rows e h =
    ground (arith, update_status-affected_zero sid wid target rows)
