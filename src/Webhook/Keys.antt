-- ===== src/Webhook/Keys.antt =====
-- What an idempotency key tells apart.
use wp_open_omega.Webhook.Idempotency.{
  Payload, session_text, id_text, status_text, joined, generate_idempotency_key, split_first,
  split_last,
}
use wp_open_omega.Common.{
  String, ◌≡◌, refl, eq_iff, subst, inl, inr, true, false, ◌||◌, arith, str_eq, Text, units,
  contains, Bool-cases,
}

-- No `_` in the text.
abbrev pub IsPlain : Text → Type 0
IsPlain s = contains b'_' s ≡ false

two_parts :
    (prefix s s2 t t2 : Text)
    → IsPlain prefix
    → IsPlain s
    → IsPlain s2
    → joined prefix (joined s t) ≡ joined prefix (joined s2 t2)
    → (s ≡ s2) × (t ≡ t2)
two_parts prefix s s2 t t2 p h k e =
    split_first b'_' s s2 t t2 h k (split_first b'_' prefix prefix _ _ p p e).1

three_parts :
    (prefix s s2 t t2 u u2 : Text)
    → IsPlain prefix
    → IsPlain s
    → IsPlain s2
    → IsPlain u
    → IsPlain u2
    → joined prefix (joined s (joined t u)) ≡ joined prefix (joined s2 (joined t2 u2))
    → (s ≡ s2) × (t ≡ t2) × (u ≡ u2)
three_parts prefix s s2 t t2 u u2 p h k l m e =
    let outer = two_parts prefix s s2 (joined t u) (joined t2 u2) p h k e in
    let inner = split_last b'_' t t2 u u2 l m outer.1 in (outer.0, inner.0, inner.1)

module _ (hash_data : Payload → Text) where
  same_event :
      (event name : String) (payload payload2 : Payload)
      → str_eq event name ≡ true
      → generate_idempotency_key hash_data event payload
        ≡ generate_idempotency_key hash_data event payload2
      → generate_idempotency_key hash_data name payload
        ≡ generate_idempotency_key hash_data name payload2
  same_event event name payload payload2 h e =
      subst
        (λ n.
          generate_idempotency_key hash_data n payload
          ≡ generate_idempotency_key hash_data n payload2)
        ((eq_iff event name).0 h) e

  -- The keys of two received or sent messages, or of two revocations, are equal only if their
  -- sessions' and their messages' ids are, whatever `_` the messages' ids have; where the
  -- sessions' have none.
  pub generate_idempotency_key-message :
      (event : String) (payload payload2 : Payload)
      → (str_eq event "message.received"
          || str_eq event "message.sent"
          || str_eq event "message.revoked")
        ≡ true
      → IsPlain (session_text payload)
      → IsPlain (session_text payload2)
      → generate_idempotency_key hash_data event payload
        ≡ generate_idempotency_key hash_data event payload2
      → (session_text payload ≡ session_text payload2) × (id_text payload ≡ id_text payload2)
  unfolding generate_idempotency_key
  generate_idempotency_key-message event payload payload2 m h k e =
      elim (Bool-cases (str_eq event "message.received")) [
        | inl received ↦
            two_parts (units "msg") _ _ _ _ refl h k
              (same_event event "message.received" payload payload2 received e)
        | inr other ↦ elim (Bool-cases (str_eq event "message.sent")) [
          | inl sent ↦
              two_parts (units "msg") _ _ _ _ refl h k
                (same_event event "message.sent" payload payload2 sent e)
          | inr apart ↦
              two_parts (units "rev") _ _ _ _ refl h k
                (same_event event "message.revoked" payload payload2 (ground arith) e)
        ]
      ]

  -- The keys of two acks, or of two failures, are equal only if their sessions' ids, their messages'
  -- ids and their statuses are, whatever `_` the messages' ids have; where the sessions' ids and the
  -- statuses have none.
  pub generate_idempotency_key-ack :
      (event : String) (payload payload2 : Payload)
      → (str_eq event "message.ack" || str_eq event "message.failed") ≡ true
      → IsPlain (session_text payload)
      → IsPlain (session_text payload2)
      → IsPlain (status_text payload)
      → IsPlain (status_text payload2)
      → generate_idempotency_key hash_data event payload
        ≡ generate_idempotency_key hash_data event payload2
      → (session_text payload ≡ session_text payload2)
        × (id_text payload ≡ id_text payload2)
        × (status_text payload ≡ status_text payload2)
  unfolding generate_idempotency_key
  generate_idempotency_key-ack event payload payload2 m h k u v e =
      elim (Bool-cases (str_eq event "message.ack")) [
        | inl ack ↦
            three_parts (units "ack") _ _ _ _ _ _ refl h k u v
              (same_event event "message.ack" payload payload2 ack e)
        | inr failed ↦
            three_parts (units "failed") _ _ _ _ _ _ refl h k u v
              (same_event event "message.failed" payload payload2 (ground arith) e)
      ]
