-- ===== src/Omega/Guards/Entitled.antt =====
-- What the two guards have established when they answer.
use wp_open_omega.Net.{resolve_client_ip}
use wp_open_omega.Auth.{admin, ApiKey, AuthService, ok, find_by_hash}
use wp_open_omega.Auth.Access.{Accepted}
use wp_open_omega.Auth.Guard.{Request}
use wp_open_omega.Omega.{OmegaUser, OmegaUserRole}
use wp_open_omega.Omega.Login.{AuthTables, granted, validate_session_token}
use wp_open_omega.Common.{ℕ, String, ◌≡◌, Bool, Option, none, some, List, Text, [], ◌∷◌, ◌⊎◌}
use wp_open_omega.Omega.Guards.{
  trimmed, token_of, key_user, OmegaVerdict, let_in, session_refused, key_refused,
  credentials_required, admin_key_required, role_refused,
}

abbrev pub OneOf : OmegaUserRole → List OmegaUserRole → Type 0
OneOf role [] = ⊥
OneOf role (r ∷ roles) = (role ≡ r) ⊎ OneOf role roles

-- One of the roles that are asked for, if any is.
abbrev pub HasRole : Option (List OmegaUserRole) → OmegaUserRole → Type 0
HasRole none role = Unit
HasRole (some []) role = Unit
HasRole (some (r ∷ roles)) role = OneOf role (r ∷ roles)

module _ (hash_token : Text → String) (verify : Text → Text → Bool) (ttl : ℕ)
    (hash_key : Text → String) (trusted_proxies : List Text) where
  -- What stands behind a user that the guards let in.
  abbrev pub Entitled :
      ℕ → Request → AuthTables → AuthService → Option Text → Option Text → OmegaUser → Type 0
  Entitled now request tables service (some token) key user =
      (id : String) × (validate_session_token hash_token verify ttl token now tables
        ≡ granted (id, user))
  Entitled now request tables service none none user = ⊥
  Entitled now request tables service none (some raw) user =
      (key : ApiKey) × Accepted (hash_key raw) now
        (some (resolve_client_ip request.connection trusted_proxies)) none
        (find_by_hash (hash_key raw) service.rows) (ok key)
      × (key.role ≡ admin)
      × (user ≡ key_user key)

  -- Of a verdict: who is let in is entitled, and has one of the roles if any is asked for.
  abbrev pub Founded :
      Option (List OmegaUserRole) → ℕ → Request → AuthTables → AuthService → OmegaVerdict → Type 0
  Founded roles now request tables service (let_in user) =
      Entitled now request tables service (token_of request) (trimmed request.x_api_key) user
      × HasRole roles user.role
  Founded roles now request tables service (session_refused e) =
      (token : Text) × (token_of request ≡ some token)
  Founded roles now request tables service (key_refused e) = token_of request ≡ none
  Founded roles now request tables service credentials_required =
      (token_of request ≡ none) × (trimmed request.x_api_key ≡ none)
  Founded roles now request tables service admin_key_required = token_of request ≡ none
  Founded roles now request tables service role_refused =
      (user : OmegaUser) × Entitled now request tables service (token_of request)
        (trimmed request.x_api_key) user
      × (HasRole roles user.role → ⊥)
