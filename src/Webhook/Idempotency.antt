-- ===== src/Webhook/Idempotency.antt =====
-- The idempotency keys of events: src/modules/webhook/utils/idempotency.util.ts. A payload is an
-- association list, a number carries its text as JavaScript prints it, and the digest of a payload
-- (its JSON text and SHA-256) is a parameter.
use wp_open_omega.Common.{
  ℕ, String, ◌≡◌, refl, ap, Bool, true, false, ◌||◌, List, [], ◌∷◌, ◌++◌, map, arith, if◌then◌else◌,
  str_eq, ◌==◌, lookup, get_or_default, Text, units, contains,
}

pub data Value : Type 0 where
  absent : Value
  text number : Text → Value
  boolean : Bool → Value
  other : Value

abbrev pub Payload : Type 0
Payload = List (String × Value)

abbrev pub get : String → Payload → Value
get key payload = get_or_default (lookup key payload) absent

abbrev pub to_str : Text → Value → Text
to_str fallback absent = fallback
to_str fallback (text s) = s
to_str fallback (number s) = s
to_str fallback (boolean true) = units "true"
to_str fallback (boolean false) = units "false"
to_str fallback other = fallback

abbrev pub unknown : Text
unknown = units "unknown"

-- `a ?? b`
abbrev pub or_else : Value → Value → Value
or_else absent b = b
or_else a b = a

abbrev pub session_text : Payload → Text
session_text payload = to_str unknown (get "sessionId" payload)

abbrev pub id_text : Payload → Text
id_text payload = to_str unknown (or_else (get "id" payload) (get "messageId" payload))

abbrev pub status_text : Payload → Text
status_text payload = to_str (units "0") (or_else (get "status" payload) (get "ack" payload))

-- Parts of a key, with `_` between them.
abbrev pub joined : Text → Text → Text
joined a b = a ++ b'_' ∷ b

abbrev pub underscored : Text → Text
underscored event = map (λ c. if c == b'.' then b'_' else c) event

module _ (hash_data : Payload → Text) where
  unfoldable pub generate_idempotency_key : String → Payload → Text
  generate_idempotency_key event payload =
      if str_eq event "message.received" || str_eq event "message.sent"
      then joined (units "msg") (joined (session_text payload) (id_text payload))
      else if str_eq event "message.ack"
      then joined (units "ack")
          (joined (session_text payload) (joined (id_text payload) (status_text payload)))
      else if str_eq event "message.failed"
      then joined (units "failed")
          (joined (session_text payload) (joined (id_text payload) (status_text payload)))
      else if str_eq event "message.revoked"
      then joined (units "rev") (joined (session_text payload) (id_text payload))
      else if str_eq event "session.status"
      then joined (units "sess")
          (joined (session_text payload) (to_str unknown (get "status" payload)))
      else if str_eq event "session.qr"
      then joined (units "qr")
          (joined (session_text payload) (hash_data (("qr", get "qr" payload) ∷ [])))
      else if str_eq event "session.authenticated"
      then joined (units "auth") (joined (session_text payload) (hash_data payload))
      else if str_eq event "session.disconnected"
      then joined (units "disc")
          (joined (session_text payload) (hash_data (("reason", get "reason" payload) ∷ [])))
      else if str_eq event "group.join"
      then joined (units "grp") (
          joined (to_str unknown (get "groupId" payload))
            (joined (to_str unknown (get "participantId" payload)) (units "join")))
      else if str_eq event "group.leave"
      then joined (units "grp") (
          joined (to_str unknown (get "groupId" payload))
            (joined (to_str unknown (get "participantId" payload)) (units "leave")))
      else if str_eq event "group.update"
      then joined (units "grp") (
          joined (to_str unknown (get "groupId" payload))
            (joined (units "update") (hash_data payload)))
      else joined (units "evt") (joined (underscored (units event)) (hash_data payload))

contains-append : (c : ℕ) (s t : Text) → contains c (s ++ t) ≡ (contains c s || contains c t)
contains-append c [] t = refl
contains-append c (d ∷ s) t = ground (arith, contains-append c s t)

-- The first part is read off, if it has no separator.
pub split_first :
    (c : ℕ) (s s2 t t2 : Text)
    → contains c s ≡ false
    → contains c s2 ≡ false
    → s ++ c ∷ t ≡ s2 ++ c ∷ t2
    → (s ≡ s2) × (t ≡ t2)
split_first c [] [] t t2 h k e = (refl, cc e)
split_first c [] (d ∷ s2) t t2 h k e = let first : c ≡ d = cc e in ground (arith, first)
split_first c (d ∷ s) [] t t2 h k e = let first : d ≡ c = cc e in ground (arith, first)
split_first c (d ∷ s) (d2 ∷ s2) t t2 h k e =
    let first : d ≡ d2 = cc e in
    let rest : s ++ c ∷ t ≡ s2 ++ c ∷ t2 = cc e in
    let tails = split_first c s s2 t t2 (ground arith) (ground arith) rest in
    (cc (first, tails.0), tails.1)

-- And the last one.
pub split_last :
    (c : ℕ) (s s2 t t2 : Text)
    → contains c t ≡ false
    → contains c t2 ≡ false
    → s ++ c ∷ t ≡ s2 ++ c ∷ t2
    → (s ≡ s2) × (t ≡ t2)
split_last c [] [] t t2 h k e = (refl, cc e)
split_last c [] (d ∷ s2) t t2 h k e =
    let rest : t ≡ s2 ++ c ∷ t2 = cc e in
    ground (arith, contains-append c s2 (c ∷ t2), ap (contains c) rest)
split_last c (d ∷ s) [] t t2 h k e =
    let rest : s ++ c ∷ t ≡ t2 = cc e in
    ground (arith, contains-append c s (c ∷ t), ap (contains c) rest)
split_last c (d ∷ s) (d2 ∷ s2) t t2 h k e =
    let first : d ≡ d2 = cc e in
    let rest : s ++ c ∷ t ≡ s2 ++ c ∷ t2 = cc e in
    let tails = split_last c s s2 t t2 h k rest in (cc (first, tails.0), tails.1)
