-- ===== src/Message/Revocation.antt =====
-- A revocation among acks: `onMessageRevoked` and `onMessageAck` write the same rows and do not wait
-- for one another.
use wp_open_omega.Common.{String, ◌≡◌, refl, sym, ap, ◌∙◌, fun_ext, List, [], ◌∷◌, map, arith}
use wp_open_omega.Message.{
  DeliveryStatus, Message, advance_row, delivery_status_to_message_status, revoke_row, on_acks,
  on_message_revoked,
}
use wp_open_omega.Message.Acks.{Ack, ack_row, acks_row, on_acks-map, map-map}

ack_row-revoke_row :
    (a : Ack) (sid wid : String) (m : Message)
    → ack_row a (revoke_row sid wid m) ≡ revoke_row sid wid (ack_row a m)
unfolding ack_row revoke_row advance_row delivery_status_to_message_status
ack_row-revoke_row (s, w, DeliveryStatus.read) sid wid m = ground arith
ack_row-revoke_row (s, w, status) sid wid m = ground arith

acks_row-revoke_row :
    (acks : List Ack) (sid wid : String) (m : Message)
    → acks_row acks (revoke_row sid wid m) ≡ revoke_row sid wid (acks_row acks m)
unfolding acks_row
acks_row-revoke_row [] sid wid m = refl
acks_row-revoke_row (a ∷ acks) sid wid m =
    ap (acks_row acks) (ack_row-revoke_row a sid wid m)
    ∙ acks_row-revoke_row acks sid wid (ack_row a m)

-- A revocation and any acks commute: the table is the same whichever is written first.
pub on_acks-on_message_revoked :
    (acks : List Ack) (sid wid : String) (rows : List Message)
    → (on_message_revoked sid wid (on_acks acks rows)).0
      ≡ on_acks acks (on_message_revoked sid wid rows).0
unfolding on_message_revoked
on_acks-on_message_revoked acks sid wid rows =
    ap (map (revoke_row sid wid)) (on_acks-map acks rows)
    ∙ (map-map (acks_row acks) (revoke_row sid wid) rows
        ∙ (ap (λ f. map f rows) (fun_ext (λ m. sym (acks_row-revoke_row acks sid wid m)))
            ∙ (sym (map-map (revoke_row sid wid) (acks_row acks) rows)
                ∙ sym (on_acks-map acks (map (revoke_row sid wid) rows)))))
