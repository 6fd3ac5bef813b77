-- ===== src/Message.antt =====
-- Stored messages and their delivery status: src/modules/message/message-status.util.ts,
-- entities/message.entity.ts, DeliveryStatus of src/engine/interfaces/whatsapp-engine.interface.ts,
-- and the handlers `onMessageAck` and `onMessageRevoked` that src/modules/session/session.service.ts
-- gives to an engine. A table is the list of its rows; an UPDATE is a map over the rows that meet
-- its WHERE clause. The columns that these operations neither read nor write are left out.
pub mod Acks
pub mod Store
pub mod Delivery
pub mod Revocation
pub mod Send
pub mod Sent
pub mod History
mod Tests
mod SendTests
use wp_open_omega.Common.{
  ℕ, ◌+◌, String, Bool, ◌&&◌, true, false, Option, none, some, List, [], ◌∷◌, ◌++◌, map, ℤ, pos,
  negsuc, if◌then◌else◌, str_eq, any, count_if,
}

pub data DeliveryStatus : Type 0 where
  pending sent delivered read failed : DeliveryStatus

pub data MessageStatus : Type 0 where
  pending sent delivered read failed : MessageStatus

unfoldable pub delivery_status_to_message_status : DeliveryStatus → Option MessageStatus
delivery_status_to_message_status DeliveryStatus.failed = some MessageStatus.failed
delivery_status_to_message_status DeliveryStatus.read = some MessageStatus.read
delivery_status_to_message_status DeliveryStatus.delivered = some MessageStatus.delivered
delivery_status_to_message_status _ = none

unfoldable pub delivery_status_to_ack : DeliveryStatus → ℤ
delivery_status_to_ack DeliveryStatus.failed = negsuc 0
delivery_status_to_ack DeliveryStatus.read = pos 3
delivery_status_to_ack DeliveryStatus.delivered = pos 2
delivery_status_to_ack DeliveryStatus.sent = pos 1
delivery_status_to_ack _ = pos 0

unfoldable pub ack_status_transition_from : MessageStatus → List MessageStatus
ack_status_transition_from MessageStatus.delivered = MessageStatus.pending ∷ MessageStatus.sent ∷ []
ack_status_transition_from MessageStatus.read =
    MessageStatus.pending ∷ MessageStatus.sent ∷ MessageStatus.delivered ∷ []
ack_status_transition_from MessageStatus.failed = MessageStatus.pending ∷ MessageStatus.sent ∷ []
ack_status_transition_from _ = []

-- Equality of the enumeration's values.
abbrev pub same_status : MessageStatus → MessageStatus → Bool
same_status MessageStatus.pending MessageStatus.pending = true
same_status MessageStatus.sent MessageStatus.sent = true
same_status MessageStatus.delivered MessageStatus.delivered = true
same_status MessageStatus.read MessageStatus.read = true
same_status MessageStatus.failed MessageStatus.failed = true
same_status _ _ = false

-- A row of `messages`; `wa_message_id` is null until the send has been answered.
pub record Message : Type 0 where
  pub id : String
  pub session_id : String
  pub wa_message_id : Option String
  pub body : String
  pub kind : String
  pub status : MessageStatus

-- `column = value` in SQL: false on null.
abbrev pub column_is : Option String → String → Bool
column_is none v = false
column_is (some c) v = str_eq c v

-- `{ sessionId, waMessageId }`
abbrev pub matches_row : String → String → Message → Bool
matches_row sid wid m = str_eq m.session_id sid && column_is m.wa_message_id wid

-- `status: In(ackStatusTransitionFrom(target))`
unfoldable pub may_advance : MessageStatus → MessageStatus → Bool
unfolding ack_status_transition_from
may_advance target s = any (same_status s) (ack_status_transition_from target)

unfoldable pub advance_row : String → String → MessageStatus → Message → Message
unfolding may_advance
advance_row sid wid target m =
    if matches_row sid wid m && may_advance target m.status then record m { status = target } else m

-- What the handlers send to the websocket gateway and to the webhook service.
pub data Notice : Type 0 where
  emit_message_ack : String → String → DeliveryStatus → Notice
  emit_message_revoked : String → String → Notice
  dispatch_ack : String → String → String → DeliveryStatus → ℤ → Notice
  dispatch_revoked : String → String → Notice

abbrev pub update_status : String → String → Option MessageStatus → List Message → List Message
update_status sid wid none rows = rows
update_status sid wid (some target) rows = map (advance_row sid wid target) rows

-- `result.affected` of that UPDATE.
abbrev pub affected : String → String → MessageStatus → List Message → ℕ
affected sid wid target rows =
    count_if (λ m. matches_row sid wid m && may_advance target m.status) rows

abbrev failed_notice : String → String → DeliveryStatus → List Notice
failed_notice sid wid DeliveryStatus.failed =
    dispatch_ack "message.failed" sid wid DeliveryStatus.failed
      (delivery_status_to_ack DeliveryStatus.failed)
    ∷ []
failed_notice sid wid _ = []

unfoldable pub on_message_ack :
    String → String → DeliveryStatus → List Message → List Message × List Notice
unfolding delivery_status_to_message_status delivery_status_to_ack advance_row
on_message_ack sid wid status rows = (
  update_status sid wid (delivery_status_to_message_status status) rows,
  emit_message_ack sid wid status
      ∷ (dispatch_ack "message.ack" sid wid status (delivery_status_to_ack status)
          ∷ failed_notice sid wid status),
)

unfoldable pub revoke_row : String → String → Message → Message
revoke_row sid wid m = if matches_row sid wid m then record m { body = ""; kind = "revoked" } else m

unfoldable pub on_message_revoked : String → String → List Message → List Message × List Notice
unfolding revoke_row
on_message_revoked sid wid rows =
    (map (revoke_row sid wid) rows, dispatch_revoked sid wid ∷ (emit_message_revoked sid wid ∷ []))

-- The acks of a connection, in the order in which the engine delivers them.
unfoldable pub on_acks : List (String × String × DeliveryStatus) → List Message → List Message
unfolding on_message_ack
on_acks [] rows = rows
on_acks ((sid, wid, status) ∷ acks) rows = on_acks acks (on_message_ack sid wid status rows).0
