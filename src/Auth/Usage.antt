-- ===== src/Auth/Usage.antt =====
-- The count of uses: what is written and what is still in memory together count every validation.
use wp_open_omega.Auth.{
  ApiKey, AuthService, AuthError, Result, ok, error, find_by_hash, refusal, is_due, used, count_use,
  answer, validate_api_key,
}
use wp_open_omega.Common.{
  ℕ, ◌+◌, String, ◌≡◌, refl, sym, subst, ap, inl, inr, Option, none, some, List, [], ◌∷◌, arith,
  if◌then◌else◌, str_eq, eq_iff, lookup, insert, erase, has_key, lookup-insert, lookup-erase,
  get_or_default, Text, Bool-cases, Option-cases, IsKeyed, some-injective,
}

abbrev uses_of : Option ApiKey → ℕ
uses_of none = 0
uses_of (some key) = key.usage_count

-- The uses of a key that the service knows of.
unfoldable pub uses : String → AuthService → ℕ
uses id service =
    uses_of (lookup id service.rows) + get_or_default (lookup id service.pending_usage) 0

first_found :
    (i id : String) (k key : ApiKey) (rows : List (String × ApiKey))
    → ◌≡◌ {A = String × ApiKey} (i, k) (id, key)
    → lookup id ((i, k) ∷ rows) ≡ some key
unfolding lookup
first_found i id k key rows e = rw ((eq_iff i id).1 (ap (λ p. p.0) e)) (ap (λ p. some p.1) e)

pub lookup_found :
    (key_hash id : String) (key : ApiKey) (rows : List (String × ApiKey))
    → IsKeyed rows
    → find_by_hash key_hash rows ≡ some (id, key)
    → lookup id rows ≡ some key
unfolding IsKeyed find_by_hash lookup has_key
lookup_found key_hash id key [] h e = cc
lookup_found key_hash id key ((i, k) ∷ rows) h e = elim (Bool-cases (str_eq k.key_hash key_hash)) [
  | inl same ↦ first_found i id k key rows (some-injective (rw same at e))
  | inr other ↦
      let found = lookup_found key_hash id key rows h.1 (rw other at e) in
      ground (arith, eq_iff i id, found, h.0)
]

uses_found :
    (key : ApiKey) (rows : List (String × ApiKey)) (id : String)
    → lookup id rows ≡ some key
    → uses_of (lookup id rows) ≡ key.usage_count
uses_found key rows id e = rw e refl

pending_when_early :
    (pending : ℕ) (id other : String) (rows : List (String × ApiKey)) (kept : List (String × ℕ))
    → get_or_default (lookup id kept) 0 ≡ pending
    → uses_of (lookup other rows) + get_or_default (lookup other (insert id (pending + 1) kept)) 0
      ≡ uses_of (lookup other rows)
        + get_or_default (lookup other kept) 0
        + (if str_eq id other then 1 else 0)
pending_when_early pending id other rows kept p = elim (Bool-cases (str_eq id other)) [
  | inl same ↦
      let here : id ≡ other = (eq_iff id other).0 same in
      rw (lookup-insert id other (pending + 1) kept, same) (omega (arith, rw here at p))
  | inr apart ↦ rw (lookup-insert id other (pending + 1) kept, apart) (omega arith)
]

uses_when_due :
    (now pending : ℕ) (id other : String) (key : ApiKey) (rows : List (String × ApiKey))
    (kept : List (String × ℕ))
    → lookup id rows ≡ some key
    → get_or_default (lookup id kept) 0 ≡ pending
    → uses_of (lookup other (insert id (used now (pending + 1) key) rows))
        + get_or_default (lookup other (erase id kept)) 0
      ≡ uses_of (lookup other rows)
        + get_or_default (lookup other kept) 0
        + (if str_eq id other then 1 else 0)
uses_when_due now pending id other key rows kept e p = elim (Bool-cases (str_eq id other)) [
  | inl same ↦
      let here : id ≡ other = (eq_iff id other).0 same in
      rw
        (lookup-insert id other (used now (pending + 1) key) rows, lookup-erase id other kept, same)
        (omega (arith, uses_found key rows other (rw here at e), rw here at p))
  | inr apart ↦
      rw
        (
          lookup-insert id other (used now (pending + 1) key) rows,
          lookup-erase id other kept,
          apart,
        )
        (omega arith)
]

uses-count_use :
    (now : ℕ) (id other : String) (key : ApiKey) (service : AuthService)
    → lookup id service.rows ≡ some key
    → uses other (count_use now id key service).1
      ≡ uses other service + (if str_eq id other then 1 else 0)
unfolding uses count_use
uses-count_use now id other key service e = elim (Bool-cases (is_due now key.last_used_at)) [
  | inl due ↦ rw due (
      uses_when_due now (get_or_default (lookup id service.pending_usage) 0) id other key
        service.rows service.pending_usage e refl)
  | inr early ↦ rw early (
      pending_when_early (get_or_default (lookup id service.pending_usage) 0) id other service.rows
        service.pending_usage refl)
]

returned-count_use :
    (now : ℕ) (id : String) (key : ApiKey) (service : AuthService)
    → lookup id service.rows ≡ some key
    → (count_use now id key service).0.usage_count ≡ uses id service + 1
unfolding uses count_use
returned-count_use now id key service e = rw e (omega arith)

-- The effect of a validation on the counts, by its outcome.
abbrev pub Counted : AuthService → AuthService → Option (String × ApiKey) → Result ApiKey → Type 0
Counted before after found (error e) = after ≡ before
Counted before after none (ok key) = ⊥
Counted before after (some (id, k)) (ok key) =
    (key.usage_count ≡ uses id before + 1)
    × ((other : String) → uses other after ≡ uses other before + (if str_eq id other then 1 else 0))

pub answer_accepted :
    (now : ℕ) (client : Option Text) (session : Option String) (service : AuthService) (id : String)
    (key : ApiKey)
    → refusal now client session key ≡ none
    → answer now client session service (some (id, key))
      ≡ (ok (count_use now id key service).0, (count_use now id key service).1)
answer_accepted now client session service id key h = rw (h, answer) refl

pub answer_refused :
    (now : ℕ) (client : Option Text) (session : Option String) (service : AuthService) (id : String)
    (key : ApiKey) (e : AuthError)
    → refusal now client session key ≡ some e
    → answer now client session service (some (id, key)) ≡ (error e, service)
answer_refused now client session service id key e h = rw (h, answer) refl

answer-Counted :
    (now : ℕ) (client : Option Text) (session : Option String) (service : AuthService)
    (found : Option (String × ApiKey))
    → ((id : String) (key : ApiKey) → found ≡ some (id, key) → lookup id service.rows ≡ some key)
    → Counted service
        (answer now client session service found).1
        found
        (answer now client session service found).0
answer-Counted now client session service none h = refl
answer-Counted now client session service (some (id, key)) h =
    elim (Option-cases (refusal now client session key)) [
      | inl accepted ↦
          subst (λ r. Counted service r.1 (some (id, key)) r.0)
            (sym (answer_accepted now client session service id key accepted))
            (
              returned-count_use now id key service (h id key refl),
              (λ other. uses-count_use now id other key service (h id key refl)),
            )
      | inr (e, refused) ↦
          subst (λ r. Counted service r.1 (some (id, key)) r.0)
            (sym (answer_refused now client session service id key e refused)) refl
    ]

-- Where no two rows share an id, a validation that is refused changes nothing, and one that is
-- accepted adds exactly one to the uses of its key, counting what is written and what is still in
-- memory, adds nothing to those of any other key, and returns the new number.
pub validate_api_key-Counted :
    (hash_key : Text → String) (now : ℕ) (raw : Text) (client : Option Text)
    (session : Option String) (service : AuthService)
    → IsKeyed service.rows
    → Counted service
        (validate_api_key hash_key now raw client session service).1
        (find_by_hash (hash_key raw) service.rows)
        (validate_api_key hash_key now raw client session service).0
unfolding validate_api_key
validate_api_key-Counted hash_key now raw client session service h =
    answer-Counted now client session service (find_by_hash (hash_key raw) service.rows)
      (λ id key e. lookup_found (hash_key raw) id key service.rows h e)
