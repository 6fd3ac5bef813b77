-- ===== src/Message/Acks.antt =====
-- What any sequence of acks does to a row: the order of delivery states, and late or repeated acks.
use wp_open_omega.Common.{
  ℕ, max, String, ◌≡◌, refl, sym, ap, ◌∙◌, ◌⊎◌, inl, ◌≢◌, none, some, List, [], ◌∷◌, map, arith,
  All, if◌then◌else◌,
}
use wp_open_omega.Message.{
  DeliveryStatus, MessageStatus, Message, matches_row, advance_row, on_message_ack, on_acks,
  delivery_status_to_message_status,
}

abbrev pub Ack : Type 0
Ack = String × String × DeliveryStatus

-- What one ack does to one row.
unfoldable pub ack_row : Ack → Message → Message
ack_row (sid, wid, status) m = elim (delivery_status_to_message_status status) [
  | none ↦ m
  | some target ↦ advance_row sid wid target m
]

unfoldable pub acks_row : List Ack → Message → Message
unfolding ack_row
acks_row [] m = m
acks_row (a ∷ acks) m = acks_row acks (ack_row a m)

map_self : (rows : List Message) → map (λ m. m) rows ≡ rows
map_self [] = refl
map_self (m ∷ rows) = ap (λ r. m ∷ r) (map_self rows)

pub map-map :
    (f g : Message → Message) (rows : List Message) → map g (map f rows) ≡ map (λ m. g (f m)) rows
map-map f g [] = refl
map-map f g (m ∷ rows) = ap (λ r. g (f m) ∷ r) (map-map f g rows)

on_message_ack-map :
    (sid wid : String) (status : DeliveryStatus) (rows : List Message)
    → (on_message_ack sid wid status rows).0 ≡ map (ack_row (sid, wid, status)) rows
unfolding on_message_ack ack_row
on_message_ack-map sid wid DeliveryStatus.pending rows = sym (map_self rows)
on_message_ack-map sid wid DeliveryStatus.sent rows = sym (map_self rows)
on_message_ack-map sid wid _ rows = refl

-- The table after any acks is the table of the rows after those acks: no row depends on another.
pub on_acks-map :
    (acks : List Ack) (rows : List Message) → on_acks acks rows ≡ map (acks_row acks) rows
unfolding on_acks acks_row
on_acks-map [] rows = sym (map_self rows)
on_acks-map ((sid, wid, status) ∷ acks) rows =
    on_acks-map acks (on_message_ack sid wid status rows).0
    ∙ (ap (map (acks_row acks)) (on_message_ack-map sid wid status rows)
        ∙ map-map (ack_row (sid, wid, status)) (acks_row acks) rows)

-- A state that an ack confirms.
abbrev pub IsConfirmed : MessageStatus → Type 0
IsConfirmed t = (t ≢ MessageStatus.pending) × (t ≢ MessageStatus.sent)

-- The order in which delivery may progress: a message leaves pending and sent for any confirmed
-- state, delivered only for read, and read and failed are never left.
abbrev pub Advances : MessageStatus → MessageStatus → Type 0
Advances MessageStatus.pending t = (t ≡ MessageStatus.pending) ⊎ IsConfirmed t
Advances MessageStatus.sent t = (t ≡ MessageStatus.sent) ⊎ IsConfirmed t
Advances MessageStatus.delivered t = (t ≡ MessageStatus.delivered) ⊎ (t ≡ MessageStatus.read)
Advances MessageStatus.read t = t ≡ MessageStatus.read
Advances MessageStatus.failed t = t ≡ MessageStatus.failed

Advances-refl : (s : MessageStatus) → Advances s s
Advances-refl MessageStatus.pending = inl refl
Advances-refl MessageStatus.sent = inl refl
Advances-refl MessageStatus.delivered = inl refl
Advances-refl _ = refl

Advances-trans : (s t u : MessageStatus) → Advances s t → Advances t u → Advances s u
Advances-trans MessageStatus.pending t u p q = ground arith
Advances-trans s t u p q = ground arith

-- All but the status of a row.
abbrev pub SameMessage : Message → Message → Type 0
SameMessage m n =
    (n.id ≡ m.id)
    × (n.session_id ≡ m.session_id)
    × (n.wa_message_id ≡ m.wa_message_id)
    × (n.body ≡ m.body)
    × (n.kind ≡ m.kind)

ack_row-Advances :
    (a : Ack) (m : Message) → Advances m.status (ack_row a m).status × SameMessage m (ack_row a m)
unfolding ack_row advance_row delivery_status_to_message_status
ack_row-Advances (sid, wid, DeliveryStatus.read) m = ground (arith, Advances-refl m.status)
ack_row-Advances (sid, wid, status) m = ground (arith, Advances-refl m.status)

-- Whatever acks arrive, in whatever order, a row's status only advances in the order of delivery,
-- and nothing but its status changes.
pub acks_row-Advances :
    (acks : List Ack) (m : Message)
    → Advances m.status (acks_row acks m).status × SameMessage m (acks_row acks m)
unfolding acks_row
acks_row-Advances [] m = (Advances-refl m.status, (refl, refl, refl, refl, refl))
acks_row-Advances (a ∷ acks) m =
    let (one, same) = ack_row-Advances a m in
    let (more, rest) = acks_row-Advances acks (ack_row a m) in
    (Advances-trans _ _ _ one more, ground arith)

-- How far a state that is not failed has come.
abbrev pub rank : MessageStatus → ℕ
rank MessageStatus.pending = 0
rank MessageStatus.sent = 1
rank MessageStatus.delivered = 2
rank MessageStatus.read = 3
rank MessageStatus.failed = 0

-- How far an ack can bring a row: one that reports it as sent, which a send does itself, leaves it.
abbrev pub ack_rank : DeliveryStatus → ℕ
ack_rank DeliveryStatus.delivered = 2
ack_rank DeliveryStatus.read = 3
ack_rank _ = 0

-- The furthest state that the acks report of this row.
abbrev pub furthest : List Ack → Message → ℕ
furthest [] m = 0
furthest ((sid, wid, status) ∷ acks) m =
    max (if matches_row sid wid m then ack_rank status else 0) (furthest acks m)

abbrev pub NoFailure : List Ack → Type 0
NoFailure = All (λ (a : Ack). a.2 ≢ DeliveryStatus.failed)

ack_row-rank :
    (a : Ack) (m : Message)
    → a.2 ≢ DeliveryStatus.failed
    → m.status ≢ MessageStatus.failed
    → (rank (ack_row a m).status
        ≡ max (rank m.status) (if matches_row a.0 a.1 m then ack_rank a.2 else 0))
      × ((ack_row a m).status ≢ MessageStatus.failed)
unfolding ack_row advance_row delivery_status_to_message_status
ack_row-rank (sid, wid, DeliveryStatus.read) m h k = ground arith
ack_row-rank (sid, wid, status) m h k = ground arith

furthest-ack_row :
    (acks : List Ack) (a : Ack) (m : Message) → furthest acks (ack_row a m) ≡ furthest acks m
furthest-ack_row [] a m = refl
furthest-ack_row ((sid, wid, status) ∷ acks) a m =
    ground (arith, furthest-ack_row acks a m, ack_row-Advances a m)

-- If no ack reports a failure and the row has not failed, then the row ends at the furthest of its
-- own state and all the states reported for it: late, repeated and reordered acks do not matter.
pub acks_row-furthest :
    (acks : List Ack) (m : Message)
    → NoFailure acks
    → m.status ≢ MessageStatus.failed
    → rank (acks_row acks m).status ≡ max (rank m.status) (furthest acks m)
unfolding acks_row
acks_row-furthest [] m h k = omega arith
acks_row-furthest (a ∷ acks) m (h, hs) k =
    let (one, live) = ack_row-rank a m h k in
    omega (arith, acks_row-furthest acks (ack_row a m) hs live, furthest-ack_row acks a m)
