-- ===== src/Message/Delivery.antt =====
-- What the table holds after a connection's acks.
use wp_open_omega.Common.{ℕ, max, ◌≡◌, ◌≢◌, ◌∙◌, some, List, ap, get_elem?, get_elem?-map}
use wp_open_omega.Message.{MessageStatus, Message, on_acks}
use wp_open_omega.Message.Acks.{
  Ack, acks_row, on_acks-map, Advances, SameMessage, acks_row-Advances, rank, furthest, NoFailure,
  acks_row-furthest,
}

on_acks-row :
    (acks : List Ack) (rows : List Message) (i : ℕ) {m : Message}
    → get_elem? rows i ≡ some m
    → get_elem? (on_acks acks rows) i ≡ some (acks_row acks m)
on_acks-row acks rows i h =
    ap (λ t. get_elem? t i) (on_acks-map acks rows) ∙ get_elem?-map (acks_row acks) rows i h

-- Whatever acks arrive, in whatever order and for whichever messages, each row stays at its place,
-- its status only advances in the order of delivery (pending and sent to a confirmed state,
-- delivered to read, and nothing else), and no other column of it changes.
pub on_acks-Advances :
    (acks : List Ack) (rows : List Message) (i : ℕ) {m : Message}
    → get_elem? rows i ≡ some m
    → (n : Message) × (get_elem? (on_acks acks rows) i ≡ some n)
      × Advances m.status n.status
      × SameMessage m n
on_acks-Advances acks rows i {m} h =
    let (ahead, same) = acks_row-Advances acks m in
    (acks_row acks m, on_acks-row acks rows i h, ahead, same)

-- If no ack reports a failure and a row has not failed, then the row ends at the furthest of its
-- own state and the deliveries and reads that are reported for its session and WhatsApp id: late,
-- repeated and reordered acks, acks that report it as pending or sent, and acks for other messages,
-- make no difference.
pub on_acks-furthest :
    (acks : List Ack) (rows : List Message) (i : ℕ) {m : Message}
    → get_elem? rows i ≡ some m
    → NoFailure acks
    → m.status ≢ MessageStatus.failed
    → (n : Message) × (get_elem? (on_acks acks rows) i ≡ some n)
      × (rank n.status ≡ max (rank m.status) (furthest acks m))
on_acks-furthest acks rows i {m} h ok live =
    (acks_row acks m, on_acks-row acks rows i h, acks_row-furthest acks m ok live)
