-- ===== src/Auth/Guard.antt =====
-- The guard of every route: src/modules/auth/guards/api-key.guard.ts. The metadata of the route is
-- an argument.
use wp_open_omega.Net.{RequestLike, resolve_client_ip}
use wp_open_omega.Auth.{
  ApiKeyRole, ApiKey, AuthService, AuthError, Result, ok, error, validate_api_key, has_permission,
  find_by_hash,
}
use wp_open_omega.Auth.Access.{Accepted, validate_api_key-Accepted}
use wp_open_omega.Auth.Rights.{Covers, has_permission-Covers}
use wp_open_omega.Common.{
  ℕ, String, ◌≡◌, refl, sym, subst, inl, inr, Bool, true, false, ◌||◌, Option, none, some, List, [],
  ◌∷◌, if◌then◌else◌, is_empty, Text, units, strip_prefix, Bool-cases,
}

pub record Route : Type 0 where
  pub is_public : Bool
  pub skip_api_key : Bool
  pub required_role : Option ApiKeyRole

pub record Request : Type 0 where
  pub x_api_key : Option Text
  pub authorization : Option Text
  pub session_param : Option String
  pub id_param : Option String
  pub connection : RequestLike

pub data Verdict : Type 0 where
  passed : Verdict
  admitted : ApiKey → Verdict
  missing_key : Verdict
  unauthorized : AuthError → Verdict
  forbidden : ApiKeyRole → Verdict

-- `X-API-Key`, or what follows `Bearer ` in `Authorization`.
abbrev bearer : Option Text → Option Text
bearer none = none
bearer (some s) = strip_prefix (units "Bearer ") s

abbrev pub extract_api_key : Request → Option Text
extract_api_key request = elim request.x_api_key [
  | none ↦ bearer request.authorization
  | some [] ↦ bearer request.authorization
  | some (c ∷ s) ↦ some (c ∷ s)
]

-- `request.params['sessionId'] || request.params['id']`
abbrev pub session_id : Request → Option String
session_id request = elim request.session_param [
  | none ↦ request.id_param
  | some s ↦ if is_empty s then request.id_param else some s
]

-- The role that a route requires is covered by the one that is held.
abbrev pub Granted : Option ApiKeyRole → ApiKeyRole → Type 0
Granted none held = Unit
Granted (some required) held = Covers held required

-- The role check behind a validation.
abbrev pub check_role : Option ApiKeyRole → Result ApiKey → Verdict
check_role required (error e) = unauthorized e
check_role none (ok key) = admitted key
check_role (some role) (ok key) = if has_permission key role then admitted key else forbidden role

role_granted :
    (key : ApiKey) (role : ApiKeyRole)
    → has_permission key role ≡ true
    → check_role (some role) (ok key) ≡ admitted key
role_granted key role h = rw h refl

role_missing :
    (key : ApiKey) (role : ApiKeyRole)
    → has_permission key role ≡ false
    → check_role (some role) (ok key) ≡ forbidden role
role_missing key role h = rw h refl

module _ (hash_key : Text → String) (trusted_proxies : List Text) where
  abbrev pub validation : ℕ → Text → Request → AuthService → Result ApiKey × AuthService
  validation now raw request service =
      validate_api_key hash_key now raw
        (some (resolve_client_ip request.connection trusted_proxies)) (session_id request) service

  -- Past the key's presence; `!apiKeyHeader` holds of an empty text too.
  abbrev pub with_key : ℕ → Route → Request → AuthService → Option Text → Verdict × AuthService
  with_key now route request service none = (missing_key, service)
  with_key now route request service (some []) = (missing_key, service)
  with_key now route request service (some (c ∷ raw)) =
      let validated = validation now (c ∷ raw) request service in
      (check_role route.required_role validated.0, validated.1)

  unfoldable pub can_activate : ℕ → Route → Request → AuthService → Verdict × AuthService
  can_activate now route request service =
      if route.is_public || route.skip_api_key
      then (passed, service)
      else with_key now route request service (extract_api_key request)

  open_route :
      (now : ℕ) (route : Route) (request : Request) (service : AuthService)
      → (route.is_public || route.skip_api_key) ≡ true
      → can_activate now route request service ≡ (passed, service)
  unfolding can_activate
  open_route now route request service h = rw h refl

  guarded_route :
      (now : ℕ) (route : Route) (request : Request) (service : AuthService)
      → (route.is_public || route.skip_api_key) ≡ false
      → can_activate now route request service
        ≡ with_key now route request service (extract_api_key request)
  unfolding can_activate
  guarded_route now route request service h = rw h refl

  -- What the guard has established when it lets a request in.
  abbrev pub Established : ℕ → Route → Request → AuthService → Verdict → Option Text → Type 0
  Established now route request service (admitted key) none = ⊥
  Established now route request service (admitted key) (some raw) =
      Accepted (hash_key raw) now (some (resolve_client_ip request.connection trusted_proxies))
        (session_id request) (find_by_hash (hash_key raw) service.rows) (ok key)
      × Granted route.required_role key.role
  Established now route request service passed found =
      (route.is_public || route.skip_api_key) ≡ true
  Established now route request service missing_key found =
      (route.is_public || route.skip_api_key) ≡ false
  Established now route request service (unauthorized e) found =
      (route.is_public || route.skip_api_key) ≡ false
  Established now route request service (forbidden role) found =
      (route.is_public || route.skip_api_key) ≡ false

  role-Established :
      (now : ℕ) (route : Route) (request : Request) (service : AuthService) (raw : Text)
      (required : Option ApiKeyRole) (result : Result ApiKey)
      → route.required_role ≡ required
      → (route.is_public || route.skip_api_key) ≡ false
      → Accepted
          (hash_key raw)
          now
          (some (resolve_client_ip request.connection trusted_proxies))
          (session_id request)
          (find_by_hash (hash_key raw) service.rows)
          result
      → Established now route request service (check_role required result) (some raw)
  role-Established now route request service raw required (error e) r h accepted = h
  role-Established now route request service raw none (ok key) r h accepted =
      (accepted, subst (λ q. Granted q key.role) (sym r) tt)
  role-Established now route request service raw (some role) (ok key) r h accepted =
      elim (Bool-cases (has_permission key role)) [
        | inl may ↦
            subst (λ v. Established now route request service v (some raw))
              (sym (role_granted key role may))
              (
                accepted,
                subst (λ q. Granted q key.role) (sym r) (has_permission-Covers key role may),
              )
        | inr may_not ↦
            subst (λ v. Established now route request service v (some raw))
              (sym (role_missing key role may_not)) h
      ]

  with_key-Established :
      (now : ℕ) (route : Route) (request : Request) (service : AuthService) (found : Option Text)
      → (route.is_public || route.skip_api_key) ≡ false
      → Established now route request service (with_key now route request service found).0 found
  with_key-Established now route request service none h = h
  with_key-Established now route request service (some []) h = h
  with_key-Established now route request service (some (c ∷ raw)) h =
      role-Established now route request service (c ∷ raw) route.required_role
        (validation now (c ∷ raw) request service).0 refl h
        (validate_api_key-Accepted hash_key now (c ∷ raw)
          (some (resolve_client_ip request.connection trusted_proxies)) (session_id request)
          service)

  -- For every route and request: a request is let in without a key only on a public route; it is
  -- let in with a key only if the hash of the key's text is that of a stored key, that stored key is
  -- active, not expired and entitled for the address that is resolved and for the session that the
  -- route names, and its role covers the one that the route requires; the key that the request then
  -- carries has the role and the name of the stored one; and nothing is refused on a public route.
  pub can_activate-Established :
      (now : ℕ) (route : Route) (request : Request) (service : AuthService)
      → Established now route request service
          (can_activate now route request service).0
          (extract_api_key request)
  unfolding can_activate
  can_activate-Established now route request service =
      elim (Bool-cases (route.is_public || route.skip_api_key)) [
        | inl public ↦
            subst (λ v. Established now route request service v.0 (extract_api_key request))
              (sym (open_route now route request service public)) public
        | inr guarded ↦
            subst (λ v. Established now route request service v.0 (extract_api_key request))
              (sym (guarded_route now route request service guarded))
              (with_key-Established now route request service (extract_api_key request) guarded)
      ]
