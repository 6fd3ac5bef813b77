-- ===== src/Omega/Guards.antt =====
-- Who may use the administration: src/modules/omega/guards/omega-auth.guard.ts and
-- omega-roles.guard.ts, one behind the other, with the roles that the route is decorated with. The
-- hash of a token and that of a key are parameters.
pub mod Entitled
use wp_open_omega.Net.{resolve_client_ip}
use wp_open_omega.Auth.{
  admin, ApiKey, AuthService, AuthError, Result, ok, error, validate_api_key, has_permission,
  find_by_hash,
}
use wp_open_omega.Auth.Access.{Accepted, validate_api_key-Accepted}
use wp_open_omega.Auth.Guard.{Request}
use wp_open_omega.Omega.{
  OmegaUser, OmegaUserRole, super_admin, support_admin, client_admin, client_agent, OmegaUserStatus,
}
use wp_open_omega.Omega.Login.{
  AuthTables, LoginError, Answer, granted, denied, validate_session_token,
}
use wp_open_omega.Common.{
  ℕ, String, ◌≡◌, refl, sym, subst, Bool, true, false, Option, none, some, List, [], ◌∷◌,
  if◌then◌else◌, any, Text, units, strip_prefix, trim,
}

pub data OmegaVerdict : Type 0 where
  let_in : OmegaUser → OmegaVerdict
  session_refused : LoginError → OmegaVerdict
  key_refused : AuthError → OmegaVerdict
  credentials_required admin_key_required : OmegaVerdict
  role_refused : OmegaVerdict

-- `value?.trim() || undefined`, and the token behind `Bearer `.
abbrev pub filled : Text → Option Text
filled [] = none
filled (c ∷ s) = some (c ∷ s)

abbrev pub trimmed : Option Text → Option Text
trimmed none = none
trimmed (some s) = filled (trim s)

abbrev pub after_bearer : Option Text → Option Text
after_bearer none = none
after_bearer (some header) = strip_prefix (units "Bearer ") header

abbrev pub token_of : Request → Option Text
token_of request = trimmed (after_bearer request.authorization)

-- The user that stands for an accepted key of the gateway.
abbrev pub key_user : ApiKey → OmegaUser
key_user key = record {
  full_name = key.name;
  email = units "openwa-admin@local";
  password_hash = [];
  client_id = none;
  role = super_admin;
  status = OmegaUserStatus.active;
  last_login_at = key.last_used_at;
}

abbrev pub key_verdict : Result ApiKey → OmegaVerdict
key_verdict (error e) = key_refused e
key_verdict (ok key) =
    if has_permission key admin then let_in (key_user key) else admin_key_required

abbrev pub session_verdict : Answer (String × OmegaUser) → OmegaVerdict
session_verdict (granted (id, user)) = let_in user
session_verdict (denied e) = session_refused e

abbrev pub same_role : OmegaUserRole → OmegaUserRole → Bool
same_role super_admin super_admin = true
same_role support_admin support_admin = true
same_role client_admin client_admin = true
same_role client_agent client_agent = true
same_role _ _ = false

-- The roles guard: no roles, no restriction.
abbrev pub roles_allow : Option (List OmegaUserRole) → OmegaUser → Bool
roles_allow none user = true
roles_allow (some []) user = true
roles_allow (some (role ∷ roles)) user = any (same_role user.role) (role ∷ roles)

unfoldable pub check_roles : Option (List OmegaUserRole) → OmegaVerdict → OmegaVerdict
check_roles roles (let_in user) = if roles_allow roles user then let_in user else role_refused
check_roles roles verdict = verdict

module _ (hash_token : Text → String) (verify : Text → Text → Bool) (ttl : ℕ)
    (hash_key : Text → String) (trusted_proxies : List Text) where
  abbrev pub by_api_key : ℕ → Request → AuthService → Option Text → OmegaVerdict × AuthService
  by_api_key now request service none = (credentials_required, service)
  by_api_key now request service (some raw) =
      let validated =
        validate_api_key hash_key now raw
          (some (resolve_client_ip request.connection trusted_proxies)) none service in
      (key_verdict validated.0, validated.1)

  abbrev pub by_token :
      ℕ → Request → AuthTables → AuthService → Option Text → OmegaVerdict × AuthService
  by_token now request tables service (some token) =
      (session_verdict (validate_session_token hash_token verify ttl token now tables), service)
  by_token now request tables service none =
      by_api_key now request service (trimmed request.x_api_key)

  unfoldable pub can_activate : ℕ → Request → AuthTables → AuthService → OmegaVerdict × AuthService
  can_activate now request tables service = by_token now request tables service (token_of request)

  -- Both guards.
  unfoldable pub admit :
      Option (List OmegaUserRole)
      → ℕ
      → Request
      → AuthTables
      → AuthService
      → OmegaVerdict × AuthService
  admit roles now request tables service =
      let verdict = can_activate now request tables service in
      (check_roles roles verdict.0, verdict.1)
