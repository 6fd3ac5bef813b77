-- ===== src/Auth/Rights.antt =====
-- What a key is entitled to: its time, its lists of addresses and sessions, and its role, as
-- src/modules/auth/auth.service.ts checks them.
use wp_open_omega.Auth.{
  ApiKeyRole, admin, operator, viewer, rank, ApiKey, AuthError, revoked, expired as expired_key,
  is_expired, check_ip, check_session, refusal, has_permission,
}
use wp_open_omega.Auth.Ranges.{is_ip_allowed}
use wp_open_omega.Common.{
  ◌≤◌, leb, ℕ, String, ◌≡◌, refl, Bool, true, false, ◌||◌, not, Option, none, some, List, [], ◌∷◌,
  arith, if◌then◌else◌, str_eq, any, is_empty, Text, is_nil,
}

-- The request's address is on the key's list, if the key has one.
abbrev pub AllowsIp : Option Text → Option (List Text) → Type 0
AllowsIp client none = Unit
AllowsIp client (some []) = Unit
AllowsIp none (some (entry ∷ entries)) = ⊥
AllowsIp (some ip) (some (entry ∷ entries)) =
    (is_nil ip ≡ false) × (is_ip_allowed ip (entry ∷ entries) ≡ true)

-- The session that the request names is on the key's list, if the key has one.
abbrev pub AllowsSession : Option String → Option (List String) → Type 0
AllowsSession none sessions = Unit
AllowsSession (some id) none = Unit
AllowsSession (some id) (some []) = Unit
AllowsSession (some id) (some (s ∷ ss)) = (is_empty id || any (str_eq id) (s ∷ ss)) ≡ true

-- A key is good up to the millisecond at which it expires.
abbrev pub InTime : ℕ → Option ℕ → Type 0
InTime now none = Unit
InTime now (some t) = now ≤ t

in_time : (now : ℕ) (t : Option ℕ) → is_expired now t ≡ false → InTime now t
in_time now none h = tt
in_time now (some t) h = ground arith

-- An admin may do everything, an operator what operators and viewers may, and a viewer the latter.
abbrev pub Covers : ApiKeyRole → ApiKeyRole → Type 0
Covers admin required = Unit
Covers operator admin = ⊥
Covers operator operator = Unit
Covers operator viewer = Unit
Covers viewer admin = ⊥
Covers viewer operator = ⊥
Covers viewer viewer = Unit

rank-Covers :
    (held required : ApiKeyRole) → leb (rank required) (rank held) ≡ true → Covers held required
rank-Covers admin required h = tt
rank-Covers operator admin h = ground arith
rank-Covers operator operator h = tt
rank-Covers operator viewer h = tt
rank-Covers viewer admin h = ground arith
rank-Covers viewer operator h = ground arith
rank-Covers viewer viewer h = tt

pub has_permission-Covers :
    (key : ApiKey) (required : ApiKeyRole)
    → has_permission key required ≡ true
    → Covers key.role required
unfolding has_permission
has_permission-Covers key required h = rank-Covers key.role required h

pub Covers-admin : (held : ApiKeyRole) → Covers held admin → held ≡ admin
Covers-admin admin h = refl
Covers-admin operator h = absurd h
Covers-admin viewer h = absurd h

pub Entitled : ℕ → Option Text → Option String → ApiKey → Type 0
Entitled now client session key =
    (key.is_active ≡ true)
    × InTime now key.expires_at
    × AllowsIp client key.allowed_ips
    × AllowsSession session key.allowed_sessions

allows_ip :
    (client : Option Text) (ips : Option (List Text))
    → check_ip client ips ≡ none
    → AllowsIp client ips
allows_ip client none h = tt
allows_ip client (some []) h = tt
allows_ip none (some (entry ∷ entries)) h = cc
allows_ip (some []) (some (entry ∷ entries)) h = cc
allows_ip (some (c ∷ ip)) (some (entry ∷ entries)) h = ground arith

allows_session :
    (session : Option String) (sessions : Option (List String))
    → check_session session sessions ≡ none
    → AllowsSession session sessions
allows_session none sessions h = tt
allows_session (some id) none h = tt
allows_session (some id) (some []) h = tt
allows_session (some id) (some (s ∷ ss)) h = ground arith

refusal_parts :
    {I S : Type 0} (active expired : Bool) (by_ip by_session : Option AuthError)
    → (by_ip ≡ none → I)
    → (by_session ≡ none → S)
    → (if not active
        then some revoked
        else if expired
        then some expired_key
        else elim by_ip as (λ x. Option AuthError) [ some e ↦ some e | none ↦ by_session ])
      ≡ none
    → (active ≡ true) × (expired ≡ false) × I × S
refusal_parts true false none none i s h = (refl, refl, i refl, s refl)
refusal_parts true false none (some e) i s h = cc
refusal_parts true false (some e) by_session i s h = cc
refusal_parts true true by_ip by_session i s h = cc
refusal_parts false expired by_ip by_session i s h = cc

pub refusal-Entitled :
    (now : ℕ) (client : Option Text) (session : Option String) (key : ApiKey)
    → refusal now client session key ≡ none
    → Entitled now client session key
unfolding refusal Entitled
refusal-Entitled now client session key h =
    let parts =
      refusal_parts key.is_active (is_expired now key.expires_at) (check_ip client key.allowed_ips)
        (check_session session key.allowed_sessions) (λ e. allows_ip client key.allowed_ips e)
        (λ e. allows_session session key.allowed_sessions e) h in
    (parts.0, in_time now key.expires_at parts.1, parts.2, parts.3)
