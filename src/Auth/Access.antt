-- ===== src/Auth/Access.antt =====
-- What a validation that is accepted has found, and what revoking does.
use wp_open_omega.Auth.{
  ApiKeyRole, count_use, ApiKey, AuthService, revoked, deactivated, Result, ok, error, find_by_hash,
  refusal, answer, validate_api_key, revoke, has_permission,
}
use wp_open_omega.Auth.Usage.{lookup_found, answer_accepted, answer_refused}
use wp_open_omega.Auth.Rights.{Entitled, refusal-Entitled}
use wp_open_omega.Common.{
  ◌⊎◌, IsKeyed, some-injective, ℕ, String, ◌≡◌, refl, sym, subst, ap, ◌∙◌, inl, inr, Bool, true,
  false, Option, none, some, List, [], ◌∷◌, arith, if◌then◌else◌, str_eq, eq_iff, lookup, insert,
  has_key, Text, Bool-cases, Option-cases,
}

-- What a validation has looked up, if it is accepted, and what it returns of it.
abbrev pub Accepted :
    String → ℕ → Option Text → Option String → Option (String × ApiKey) → Result ApiKey → Type 0
Accepted key_hash now client session found (error e) = Unit
Accepted key_hash now client session none (ok key) = ⊥
Accepted key_hash now client session (some (id, row)) (ok key) =
    Entitled now client session row
    × (row.key_hash ≡ key_hash)
    × (key.role ≡ row.role)
    × (key.name ≡ row.name)

picked {ℓ} :
    {A : Type ℓ} (b : Bool) (x r : A) (rest : Option A)
    → (if b then some x else rest) ≡ some r
    → ((b ≡ true) × (x ≡ r)) ⊎ (rest ≡ some r)
picked true x r rest h = inl (refl, some-injective h)
picked false x r rest h = inr h

found_hash :
    (key_hash : String) (rows : List (String × ApiKey)) (r : String × ApiKey)
    → find_by_hash key_hash rows ≡ some r
    → r.1.key_hash ≡ key_hash
unfolding find_by_hash
found_hash key_hash [] r h = cc
found_hash key_hash (row ∷ rows) r h =
    elim (picked (str_eq row.1.key_hash key_hash) row r (find_by_hash key_hash rows) h) [
      | inl (same, e) ↦ sym (ap (λ p. p.1.key_hash) e) ∙ (eq_iff row.1.key_hash key_hash).0 same
      | inr later ↦ found_hash key_hash rows r later
    ]

count_use-row :
    (now : ℕ) (id : String) (key : ApiKey) (service : AuthService)
    → ((count_use now id key service).0.role ≡ key.role)
      × ((count_use now id key service).0.name ≡ key.name)
unfolding count_use
count_use-row now id key service = (refl, refl)

answer-Accepted :
    (key_hash : String) (now : ℕ) (client : Option Text) (session : Option String)
    (service : AuthService) (found : Option (String × ApiKey))
    → find_by_hash key_hash service.rows ≡ found
    → Accepted key_hash now client session found (answer now client session service found).0
answer-Accepted key_hash now client session service none f = tt
answer-Accepted key_hash now client session service (some (id, key)) f =
    elim (Option-cases (refusal now client session key)) [
      | inl accepted ↦
          subst (λ r. Accepted key_hash now client session (some (id, key)) r.0)
            (sym (answer_accepted now client session service id key accepted))
            (
              refusal-Entitled now client session key accepted,
              found_hash key_hash service.rows (id, key) f,
              (count_use-row now id key service).0,
              (count_use-row now id key service).1,
            )
      | inr (e, refused) ↦
          subst (λ r. Accepted key_hash now client session (some (id, key)) r.0)
            (sym (answer_refused now client session service id key e refused)) tt
    ]

-- A validation that is accepted has found a row with the hash of the key, and the row is active
-- and not expired; if it lists addresses, the client's address is known and one of them allows it,
-- and if it lists sessions and the request names one, that session is on the list. The key that it
-- returns has the role and the name of the row.
pub validate_api_key-Accepted :
    (hash_key : Text → String) (now : ℕ) (raw : Text) (client : Option Text)
    (session : Option String) (service : AuthService)
    → Accepted
        (hash_key raw)
        now
        client
        session
        (find_by_hash (hash_key raw) service.rows)
        (validate_api_key hash_key now raw client session service).0
unfolding validate_api_key
validate_api_key-Accepted hash_key now raw client session service =
    answer-Accepted (hash_key raw) now client session service
      (find_by_hash (hash_key raw) service.rows) refl

found_first :
    (key_hash id i : String) (k key new : ApiKey) (rows : List (String × ApiKey))
    → str_eq k.key_hash key_hash ≡ true
    → new.key_hash ≡ key.key_hash
    → ◌≡◌ {A = String × ApiKey} (i, k) (id, key)
    → find_by_hash key_hash (insert id new ((i, k) ∷ rows)) ≡ some (id, new)
unfolding find_by_hash insert
found_first key_hash id i k key new rows same same_hash e =
    let hashes : new.key_hash ≡ k.key_hash = same_hash ∙ sym (ap (λ p. p.1.key_hash) e) in
    rw ((eq_iff i id).1 (ap (λ p. p.0) e), hashes, same) refl

apart_of_found :
    (i id : String) (key : ApiKey) (rows : List (String × ApiKey))
    → has_key i rows ≡ false
    → lookup id rows ≡ some key
    → str_eq i id ≡ false
unfolding has_key
apart_of_found i id key rows h e = elim (Bool-cases (str_eq i id)) [
  | inl same ↦ cc ((eq_iff i id).0 same, h, e)
  | inr other ↦ other
]

found_later :
    (key_hash id i : String) (k key new : ApiKey) (rows : List (String × ApiKey))
    → str_eq k.key_hash key_hash ≡ false
    → str_eq i id ≡ false
    → find_by_hash key_hash (insert id new rows) ≡ some (id, new)
    → find_by_hash key_hash (insert id new ((i, k) ∷ rows)) ≡ some (id, new)
unfolding find_by_hash insert
found_later key_hash id i k key new rows other apart ih = rw (apart, other) ih

-- Writing a row back leaves the search by its hash at that row.
find-insert :
    (key_hash id : String) (key new : ApiKey) (rows : List (String × ApiKey))
    → IsKeyed rows
    → new.key_hash ≡ key.key_hash
    → find_by_hash key_hash rows ≡ some (id, key)
    → find_by_hash key_hash (insert id new rows) ≡ some (id, new)
unfolding IsKeyed find_by_hash insert
find-insert key_hash id key new [] h same_hash e = cc
find-insert key_hash id key new ((i, k) ∷ rows) h same_hash e =
    elim (Bool-cases (str_eq k.key_hash key_hash)) [
      | inl same ↦
          found_first key_hash id i k key new rows same same_hash (some-injective (rw same at e))
      | inr other ↦
          let later = lookup_found key_hash id key rows h.1 (rw other at e) in
          let ih = find-insert key_hash id key new rows h.1 same_hash (rw other at e) in
          found_later key_hash id i k key new rows other (apart_of_found i id key rows h.0 later) ih
    ]

-- Once a key is revoked, a validation by any text with its hash is refused as revoked, at every
-- time, from every address and for every session, and changes nothing.
pub validate_api_key-revoke :
    (hash_key : Text → String) (now : ℕ) (raw : Text) (client : Option Text)
    (session : Option String) (id : String) (key : ApiKey) (service : AuthService)
    → find_by_hash (hash_key raw) service.rows ≡ some (id, key)
    → IsKeyed service.rows
    → validate_api_key hash_key now raw client session (revoke id service).1
      ≡ (error revoked, (revoke id service).1)
unfolding revoke validate_api_key refusal
validate_api_key-revoke hash_key now raw client session id key service found keyed =
    let there = lookup_found (hash_key raw) id key service.rows keyed found in
    rw (there, revoke)
      (rw
        (
          find-insert (hash_key raw) id key (deactivated key) service.rows keyed refl found,
          validate_api_key,
        )
        refl)

-- The permission is a preorder of the roles: who may do what a role requires may do what every
-- role below it requires.
pub has_permission_trans :
    (key other : ApiKey) (required : ApiKeyRole)
    → has_permission key other.role ≡ true
    → has_permission other required ≡ true
    → has_permission key required ≡ true
unfolding has_permission
has_permission_trans key other required h k = ground arith
