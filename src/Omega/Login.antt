-- ===== src/Omega/Login.antt =====
-- Logging in to the administration: src/modules/omega/omega-auth.service.ts. Tokens, with the hash
-- that the table keeps of one, the key derivation, the reading of hexadecimal and the hash of a new
-- password are parameters; a random token and the id of a new row are arguments. A session is kept by
-- the hash of its token, which is unique, and times are in milliseconds.
pub mod Tokens
mod Tests
use wp_open_omega.Omega.{
  OmegaUser, OmegaUserRole, super_admin, support_admin, OmegaUserStatus, invited,
}
use wp_open_omega.Common.{
  ℕ, ◌+◌, ◌*◌, String, Bool, true, false, not, ◌&&◌, ◌||◌, Option, none, some, List, ◌∷◌, ◌++◌, ltb,
  if◌then◌else◌, lookup, insert, erase, has_key, find_row, Text, text_eq, is_nil, split, lower,
}

pub record OmegaAuthSession : Type 0 where
  pub user_id : String
  pub expires_at : ℕ

pub record AuthTables : Type 0 where
  pub users : List (String × OmegaUser)
  pub sessions : List (String × OmegaAuthSession)

pub data LoginError : Type 0 where
  invalid_credentials user_suspended token_taken session_expired user_unavailable : LoginError

pub data Answer {ℓ} (A : Type ℓ) : Type ℓ where
  granted : A → Answer A
  denied : LoginError → Answer A

abbrev pub is_suspended : OmegaUser → Bool
is_suspended user = elim user.status [
  | OmegaUserStatus.suspended ↦ true
  | OmegaUserStatus.active ↦ false
  | invited ↦ false
]

abbrev pub find_by_email : Text → List (String × OmegaUser) → Option (String × OmegaUser)
find_by_email email users = find_row (λ user. text_eq user.email email) users

module _ (scrypt : Text → Text → Text) (from_hex : Text → Text) where
  abbrev pub verify_parts : Text → List Text → Bool
  verify_parts password (salt ∷ hash ∷ rest) =
      not (is_nil salt || is_nil hash) && text_eq (from_hex hash) (scrypt password salt)
  verify_parts password _ = false

  -- `salt:hash`, where neither may be empty; what stands behind a second colon is ignored.
  unfoldable pub verify_password : Text → Text → Bool
  verify_password password stored_hash = verify_parts password (split b':' stored_hash)

module _ {T : Type 0} (hash_token : T → String) (verify : Text → Text → Bool)
    (session_ttl_hours : ℕ) where
  abbrev pub expiry : ℕ → ℕ
  expiry now = now + session_ttl_hours * 60 * 60 * 1000

  abbrev pub logged_in : ℕ → OmegaUser → OmegaUser
  logged_in now user = record user { last_login_at = some now }

  abbrev pub login_found :
      Text
      → T
      → ℕ
      → AuthTables
      → Option (String × OmegaUser)
      → Answer (String × OmegaAuthSession) × AuthTables
  login_found password token now tables none = (denied invalid_credentials, tables)
  login_found password token now tables (some (id, user)) =
      if not (verify password user.password_hash)
      then (denied invalid_credentials, tables)
      else if is_suspended user
      then (denied user_suspended, tables)
      else if has_key (hash_token token) tables.sessions
      then (denied token_taken, tables)
      else (
        granted (id, record { user_id = id; expires_at = expiry now }),
        record {
          users = insert id (logged_in now user) tables.users;
          sessions =
              insert (hash_token token) (record { user_id = id; expires_at = expiry now })
                tables.sessions;
        },
      )

  unfoldable pub login :
      Text → Text → T → ℕ → AuthTables → Answer (String × OmegaAuthSession) × AuthTables
  login email password token now tables =
      login_found password token now tables (find_by_email (lower email) tables.users)

  -- The user that a session stands for.
  abbrev pub judge_user : String → Option OmegaUser → Answer (String × OmegaUser)
  judge_user id none = denied user_unavailable
  judge_user id (some user) =
      if is_suspended user then denied user_unavailable else granted (id, user)

  abbrev pub judge_session :
      ℕ → List (String × OmegaUser) → Option OmegaAuthSession → Answer (String × OmegaUser)
  judge_session now users none = denied session_expired
  judge_session now users (some session) =
      if ltb session.expires_at now
      then denied session_expired
      else judge_user session.user_id (lookup session.user_id users)

  unfoldable pub validate_session_token : T → ℕ → AuthTables → Answer (String × OmegaUser)
  validate_session_token token now tables =
      judge_session now tables.users (lookup (hash_token token) tables.sessions)

  unfoldable pub logout : T → AuthTables → AuthTables
  logout token tables = record tables { sessions = erase (hash_token token) tables.sessions }

-- A new hash, from the bytes of its salt.
unfoldable pub hash_password : (Text → Text → Text) → (Text → Text) → Text → Text → Text
hash_password scrypt to_hex salt password =
    to_hex salt ++ b':' ∷ to_hex (scrypt password (to_hex salt))

module _ (new_hash : Text → Text) where
  unfoldable pub ensure_default_user :
      String
      → String
      → Text
      → Text
      → OmegaUserRole
      → List (String × OmegaUser)
      → List (String × OmegaUser)
  ensure_default_user id full_name email password role users =
      elim (find_by_email (lower email) users) [
        | some existing ↦ users
        | none ↦
            insert id
              (record {
                full_name = full_name;
                email = lower email;
                password_hash = new_hash password;
                client_id = none;
                role = role;
                status = OmegaUserStatus.active;
                last_login_at = none;
              })
              users
      ]

  -- Both default accounts, under the ids that the database gives them.
  unfoldable pub on_module_init :
      String → String → Text → Text → Text → List (String × OmegaUser) → List (String × OmegaUser)
  on_module_init id support_id email support_email password users =
      ensure_default_user support_id "Omega Support" support_email password support_admin
        (ensure_default_user id "Omega Super Admin" email password super_admin users)
