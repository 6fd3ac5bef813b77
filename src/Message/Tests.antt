-- ===== src/Message/Tests.antt =====
-- Runs of the ack handlers, and the theorems at concrete inputs.
use wp_open_omega.Common.{max, ◌≡◌, refl, some, List, [], ◌∷◌, get_elem?, negsuc}
use wp_open_omega.Message.{
  DeliveryStatus, MessageStatus, Message, on_message_ack, on_acks, emit_message_ack, dispatch_ack,
  on_message_revoked,
}
use wp_open_omega.Message.Acks.{Ack, Advances, SameMessage, rank, furthest}
use wp_open_omega.Message.Revocation.{on_acks-on_message_revoked}
use wp_open_omega.Message.Delivery.{on_acks-Advances, on_acks-furthest}

abbrev sent_row : Message
sent_row = record {
  id = "1";
  session_id = "s";
  wa_message_id = some "w";
  body = "hello";
  kind = "text";
  status = MessageStatus.sent;
}

-- The same WhatsApp id in another session.
abbrev foreign_row : Message
foreign_row = record sent_row { id = "2"; session_id = "t" }

abbrev rows : List Message
rows = foreign_row ∷ sent_row ∷ []

-- A read receipt that arrives before the delivery receipt, and a receipt for the other session.
abbrev late : List Ack
late =
    ("s", "w", DeliveryStatus.read)
    ∷ ("s", "w", DeliveryStatus.delivered)
    ∷ ("t", "x", DeliveryStatus.read)
    ∷ []

late_run : on_acks late rows ≡ foreign_row ∷ (record sent_row { status = MessageStatus.read }) ∷ []
unfolding on_acks
late_run = refl

failed_run : on_message_ack "s" "w" DeliveryStatus.failed rows ≡ (
  foreign_row ∷ (record sent_row { status = MessageStatus.failed }) ∷ [],
  emit_message_ack "s" "w" DeliveryStatus.failed
      ∷ dispatch_ack "message.ack" "s" "w" DeliveryStatus.failed (negsuc 0)
      ∷ dispatch_ack "message.failed" "s" "w" DeliveryStatus.failed (negsuc 0)
      ∷ [],
)
unfolding on_message_ack
failed_run = refl

on_acks-Advances_example :
    (n : Message) × (get_elem? (on_acks late rows) 1 ≡ some n)
    × Advances MessageStatus.sent n.status
    × SameMessage sent_row n
on_acks-Advances_example = on_acks-Advances late rows 1 {m = sent_row} refl

on_acks-furthest_example :
    (n : Message) × (get_elem? (on_acks late rows) 1 ≡ some n)
    × (rank n.status ≡ max 1 (furthest late sent_row))
on_acks-furthest_example =
    on_acks-furthest late rows 1 {m = sent_row} refl ((λ e. cc), ((λ e. cc), ((λ e. cc), tt)))
      (λ e. cc)

on_acks-on_message_revoked_example :
    (on_message_revoked "s" "w" (on_acks late rows)).0
    ≡ on_acks late (on_message_revoked "s" "w" rows).0
on_acks-on_message_revoked_example = on_acks-on_message_revoked late "s" "w" rows
