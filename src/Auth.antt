-- ===== src/Auth.antt =====
-- API keys: src/modules/auth/auth.service.ts, entities/api-key.entity.ts and
-- guards/api-key.guard.ts. The table is an association list from the id of a row to the row, the
-- hash is a parameter, the clock's reading is an argument, and times are in milliseconds.
pub mod Ranges
pub mod Usage
pub mod Rights
pub mod Access
pub mod Guard
mod Tests
use wp_open_omega.Auth.Ranges.{is_ip_allowed}
use wp_open_omega.Common.{
  ℕ, ◌+◌, String, Bool, true, false, not, ◌&&◌, ◌||◌, Option, none, some, List, [], ◌∷◌, ltb, leb,
  if◌then◌else◌, any, str_eq, is_empty, lookup, insert, erase, get_or_default, Text, is_nil,
}

pub data ApiKeyRole : Type 0 where
  admin operator viewer : ApiKeyRole

pub record ApiKey : Type 0 where
  pub name : String
  pub key_hash : String
  pub key_prefix : String
  pub role : ApiKeyRole
  pub allowed_ips : Option (List Text)
  pub allowed_sessions : Option (List String)
  pub is_active : Bool
  pub expires_at : Option ℕ
  pub last_used_at : Option ℕ
  pub usage_count : ℕ

pub record AuthService : Type 0 where
  pub rows : List (String × ApiKey)
  pub pending_usage : List (String × ℕ)

pub data AuthError : Type 0 where
  invalid_key revoked expired ip_unknown ip_rejected session_rejected not_found : AuthError

pub data Result {ℓ} (A : Type ℓ) : Type ℓ where
  ok : A → Result A
  error : AuthError → Result A

-- `findOne({ where: { keyHash } })`, with the id of the row.
unfoldable pub find_by_hash : String → List (String × ApiKey) → Option (String × ApiKey)
find_by_hash key_hash [] = none
find_by_hash key_hash (row ∷ rows) =
    if str_eq row.1.key_hash key_hash then some row else find_by_hash key_hash rows

abbrev pub is_expired : ℕ → Option ℕ → Bool
is_expired now none = false
is_expired now (some t) = ltb t now

-- The check of the list of addresses; an empty list is no restriction.
abbrev pub check_ip : Option Text → Option (List Text) → Option AuthError
check_ip client none = none
check_ip client (some []) = none
check_ip none (some (entry ∷ entries)) = some ip_unknown
check_ip (some []) (some (entry ∷ entries)) = some ip_unknown
check_ip (some (c ∷ ip)) (some (entry ∷ entries)) =
    if is_ip_allowed (c ∷ ip) (entry ∷ entries) then none else some ip_rejected

-- The check of the list of sessions, for a request that names one.
abbrev pub check_session : Option String → Option (List String) → Option AuthError
check_session none sessions = none
check_session (some id) none = none
check_session (some id) (some []) = none
check_session (some id) (some (s ∷ ss)) =
    if is_empty id then none else if any (str_eq id) (s ∷ ss) then none else some session_rejected

-- The checks in their order.
unfoldable pub refusal : ℕ → Option Text → Option String → ApiKey → Option AuthError
refusal now client session key =
    if not key.is_active
    then some revoked
    else if is_expired now key.expires_at
    then some expired
    else elim (check_ip client key.allowed_ips) [
      | some e ↦ some e
      | none ↦ check_session session key.allowed_sessions
    ]

abbrev pub stat_flush_interval_ms : ℕ
stat_flush_interval_ms = 60000

abbrev pub is_due : ℕ → Option ℕ → Bool
is_due now none = true
is_due now (some previous) = leb (previous + stat_flush_interval_ms) now

abbrev pub used : ℕ → ℕ → ApiKey → ApiKey
used now pending key = record {
  name = key.name;
  key_hash = key.key_hash;
  key_prefix = key.key_prefix;
  role = key.role;
  allowed_ips = key.allowed_ips;
  allowed_sessions = key.allowed_sessions;
  is_active = key.is_active;
  expires_at = key.expires_at;
  last_used_at = some now;
  usage_count = key.usage_count + pending;
}

-- The statistics of an accepted request: written when due, and kept in memory until then.
unfoldable pub count_use : ℕ → String → ApiKey → AuthService → ApiKey × AuthService
count_use now id key service =
    let pending = get_or_default (lookup id service.pending_usage) 0 + 1 in
    (
      used now pending key,
      if is_due now key.last_used_at
          then (record {
            rows = insert id (used now pending key) service.rows;
            pending_usage = erase id service.pending_usage;
          })
          else (record {
            rows = service.rows;
            pending_usage = insert id pending service.pending_usage;
          }),
    )

-- A row that was found, or none.
abbrev pub answer :
    ℕ
    → Option Text
    → Option String
    → AuthService
    → Option (String × ApiKey)
    → Result ApiKey × AuthService
answer now client session service none = (error invalid_key, service)
answer now client session service (some (id, key)) = elim (refusal now client session key) [
  | some e ↦ (error e, service)
  | none ↦ let counted = count_use now id key service in (ok counted.0, counted.1)
]

module _ (hash_key : Text → String) where
  unfoldable pub validate_api_key :
      ℕ → Text → Option Text → Option String → AuthService → Result ApiKey × AuthService
  validate_api_key now raw client session service =
      answer now client session service (find_by_hash (hash_key raw) service.rows)

abbrev pub deactivated : ApiKey → ApiKey
deactivated key = record {
  name = key.name;
  key_hash = key.key_hash;
  key_prefix = key.key_prefix;
  role = key.role;
  allowed_ips = key.allowed_ips;
  allowed_sessions = key.allowed_sessions;
  is_active = false;
  expires_at = key.expires_at;
  last_used_at = key.last_used_at;
  usage_count = key.usage_count;
}

unfoldable pub revoke : String → AuthService → Result ApiKey × AuthService
revoke id service = elim (lookup id service.rows) [
  | none ↦ (error not_found, service)
  | some key ↦ (
    ok (deactivated key),
    record {
      rows = insert id (deactivated key) service.rows;
      pending_usage = erase id service.pending_usage;
    },
  )
]

unfoldable pub delete : String → AuthService → Result (Unit {0}) × AuthService
delete id service = elim (lookup id service.rows) [
  | none ↦ (error not_found, service)
  | some key ↦ (
    ok tt,
    record { rows = erase id service.rows; pending_usage = erase id service.pending_usage },
  )
]

abbrev pub rank : ApiKeyRole → ℕ
rank viewer = 1
rank operator = 2
rank admin = 3

unfoldable pub has_permission : ApiKey → ApiKeyRole → Bool
has_permission key required = leb (rank required) (rank key.role)

-- Each field of an update is left out, or given; a nullable field may be given as null.
pub record UpdateApiKeyDto : Type 0 where
  pub name : Option String
  pub role : Option ApiKeyRole
  pub allowed_ips : Option (Option (List Text))
  pub allowed_sessions : Option (Option (List String))
  pub expires_at : Option (Option ℕ)

abbrev pub given_name : Option String → String → String
given_name none old = old
given_name (some name) old = if is_empty name then old else name

abbrev pub updated : UpdateApiKeyDto → ApiKey → ApiKey
updated dto key = record {
  name = given_name dto.name key.name;
  key_hash = key.key_hash;
  key_prefix = key.key_prefix;
  role = get_or_default dto.role key.role;
  allowed_ips = get_or_default dto.allowed_ips key.allowed_ips;
  allowed_sessions = get_or_default dto.allowed_sessions key.allowed_sessions;
  is_active = key.is_active;
  expires_at = get_or_default dto.expires_at key.expires_at;
  last_used_at = key.last_used_at;
  usage_count = key.usage_count;
}

unfoldable pub update : String → UpdateApiKeyDto → AuthService → Result ApiKey × AuthService
update id dto service = elim (lookup id service.rows) [
  | none ↦ (error not_found, service)
  | some key ↦ (
    ok (updated dto key),
    record {
      rows = insert id (updated dto key) service.rows;
      pending_usage = service.pending_usage;
    },
  )
]
