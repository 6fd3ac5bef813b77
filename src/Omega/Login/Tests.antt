-- ===== src/Omega/Login/Tests.antt =====
-- Runs of the login and of the guards.
use wp_open_omega.Auth.{AuthService}
use wp_open_omega.Auth.Guard.{Request}
use wp_open_omega.Omega.{support_admin, OmegaUserStatus, OmegaUser}
use wp_open_omega.Omega.Login.{
  AuthTables, validate_session_token, verify_password, hash_password, login, logout,
}
use wp_open_omega.Omega.Login.Tokens.{
  AuthRequest, log_in, log_out, session_of, run, Judged, run-validate_session_token,
  verify_password-hash_password,
}
use wp_open_omega.Common.{
  ◌+◌, ◌-◌, String, ◌≡◌, refl, Bool, true, false, none, some, List, [], ◌∷◌, str_eq, lookup, insert,
  erase, find_row, has_key, arith, Text, units, contains, is_nil, split,
}

abbrev ann : OmegaUser
ann = record {
  full_name = "Ann";
  email = units "ann@omega.local";
  password_hash = units "salt:secret";
  client_id = none;
  role = support_admin;
  status = OmegaUserStatus.active;
  last_login_at = none;
}

abbrev token_hash : String → String
token_hash token = token

-- The stored hash ends in the password itself.
abbrev test_scrypt : Text → Text → Text
test_scrypt password salt = password

abbrev same_text : Text → Text
same_text s = s

abbrev verify : Text → Text → Bool
verify password stored = verify_password test_scrypt same_text password stored

abbrev auth_requests : List (AuthRequest String)
auth_requests =
    log_in (units "Ann@omega.local") (units "secret") "t1" 1000
    ∷ log_in (units "ann@omega.local") (units "guess") "t2" 2000
    ∷ log_in (units "ann@omega.local") (units "secret") "t3" 3000
    ∷ log_out "t1"
    ∷ []

abbrev no_sessions : AuthTables
no_sessions = record { users = ("u1", ann) ∷ []; sessions = [] }

run-validate_session_token_example :
    Judged 4000
      (run token_hash str_eq verify 12 auth_requests [] no_sessions).1.users
      (session_of token_hash str_eq "t3"
        (run token_hash str_eq verify 12 auth_requests [] no_sessions).0)
      (validate_session_token token_hash verify 12 "t3" 4000
        (run token_hash str_eq verify 12 auth_requests [] no_sessions).1)
run-validate_session_token_example =
    run-validate_session_token token_hash str_eq verify 12 (λ s t. refl) auth_requests
      (("u1", ann) ∷ []) "t3" 4000

-- The token of the second login that succeeded is good, the one that was logged out is not.
good_and_bad :
    (session_of token_hash str_eq "t3"
        (run token_hash str_eq verify 12 auth_requests [] no_sessions).0
      ≡ some (record { user_id = "u1"; expires_at = 43203000 }))
    × (session_of token_hash str_eq "t1"
          (run token_hash str_eq verify 12 auth_requests [] no_sessions).0
        ≡ none)
unfolding session_of run login logout verify_password split find_row has_key lookup insert erase
good_and_bad = (refl, refl)

-- Hexadecimal as the test takes it: each unit moved behind the colon.
abbrev shifted : Text → Text
shifted [] = []
shifted (c ∷ s) = (c + 59) ∷ shifted s

abbrev unshifted : Text → Text
unshifted [] = []
unshifted (c ∷ s) = (c - 59) ∷ unshifted s

unshifted-shifted : (s : Text) → unshifted (shifted s) ≡ s
unshifted-shifted [] = refl
unshifted-shifted (c ∷ s) = ground (arith, unshifted-shifted s)

shifted_no_colon : (s : Text) → contains b':' (shifted s) ≡ false
shifted_no_colon [] = refl
shifted_no_colon (c ∷ s) = ground (arith, shifted_no_colon s)

shifted_empty : (s : Text) → is_nil (shifted s) ≡ is_nil s
shifted_empty [] = refl
shifted_empty (c ∷ s) = refl

verify_password-hash_password_example :
    verify_password test_scrypt unshifted
      (units "secret")
      (hash_password test_scrypt shifted (units "salt") (units "secret"))
    ≡ true
verify_password-hash_password_example =
    verify_password-hash_password test_scrypt shifted unshifted (units "salt") (units "secret")
      unshifted-shifted shifted_no_colon shifted_empty refl refl

-- The hash of a text, as the guards' test takes it.
abbrev text_hash : Text → String
text_hash [] = "empty"
text_hash (c ∷ s) = "some"

abbrev by_bearer : Request
by_bearer = record {
  x_api_key = none;
  authorization = some (units "Bearer t1");
  session_param = none;
  id_param = none;
  connection = record { ip = none; remote_address = some (units "10.1.2.3"); headers = [] };
}

abbrev auth_tables : AuthTables
auth_tables = record {
  users = ("u1", ann) ∷ [];
  sessions = ("some", record { user_id = "u1"; expires_at = 5000 }) ∷ [];
}

abbrev no_keys : AuthService
no_keys = record { rows = []; pending_usage = [] }
