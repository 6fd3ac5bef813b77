-- ===== src/Omega/Login/Tokens.antt =====
-- What the login service promises of tokens and passwords.
use wp_open_omega.Omega.{OmegaUser, OmegaUserStatus, invited}
use wp_open_omega.Omega.Login.{
  OmegaAuthSession, AuthTables, Answer, granted, denied, find_by_email, verify_password,
  hash_password, expiry, login_found, login, judge_user, is_suspended, invalid_credentials,
  user_suspended, token_taken, session_expired, user_unavailable, judge_session,
  validate_session_token, logout,
}
use wp_open_omega.Common.{
  ℕ, ◌≤◌, ◌<◌, ◌≢◌, ◌⊎◌, inl, inr, subst, ltb, Bool-cases, String, ◌≡◌, refl, Bool, true, false,
  Option, none, some, List, [], ◌∷◌, arith, if◌then◌else◌, str_eq, lookup, lookup-insert,
  lookup-erase, Text, text_eq_refl, is_nil, split, split-append, contains, lower,
}

-- What is done with tokens, from outside: the requests.
pub data AuthRequest (T : Type 0) : Type 0 where
  log_in : Text → Text → T → ℕ → AuthRequest T
  log_out : T → AuthRequest T

-- What a request does to tokens: it issues one, ends one or leaves all.
pub data TokenEvent (T : Type 0) : Type 0 where
  issued : T → OmegaAuthSession → TokenEvent T
  ended : T → TokenEvent T
  unchanged : TokenEvent T

-- What an answer says of the session of a token.
abbrev pub Judged :
    ℕ → List (String × OmegaUser) → Option OmegaAuthSession → Answer (String × OmegaUser) → Type 0
Judged now users session (granted (id, user)) =
    (s : OmegaAuthSession) × (session ≡ some s)
    × (s.user_id ≡ id)
    × (now ≤ s.expires_at)
    × (lookup id users ≡ some user)
    × (user.status ≢ OmegaUserStatus.suspended)
Judged now users session (denied session_expired) =
    (session ≡ none) ⊎ ((s : OmegaAuthSession) × (session ≡ some s) × (s.expires_at < now))
Judged now users session (denied user_unavailable) =
    (s : OmegaAuthSession) × (session ≡ some s)
    × (now ≤ s.expires_at)
    × ((lookup s.user_id users ≡ none)
        ⊎ ((user : OmegaUser) × (lookup s.user_id users ≡ some user)
            × (user.status ≡ OmegaUserStatus.suspended)))
Judged now users session (denied invalid_credentials) = ⊥
Judged now users session (denied user_suspended) = ⊥
Judged now users session (denied token_taken) = ⊥

abbrev status_of : OmegaUserStatus → Bool
status_of status = elim status [
  | OmegaUserStatus.suspended ↦ true
  | OmegaUserStatus.active ↦ false
  | invited ↦ false
]

status_suspended :
    (status : OmegaUserStatus) → status_of status ≡ true → status ≡ OmegaUserStatus.suspended
status_suspended OmegaUserStatus.suspended h = refl
status_suspended OmegaUserStatus.active h = ground arith
status_suspended invited h = ground arith

status_not_suspended :
    (status : OmegaUserStatus) → status_of status ≡ false → status ≢ OmegaUserStatus.suspended
status_not_suspended OmegaUserStatus.suspended h = λ e. ground arith
status_not_suspended OmegaUserStatus.active h = λ e. ground arith
status_not_suspended invited h = λ e. ground arith

suspended_status :
    (user : OmegaUser) → is_suspended user ≡ true → user.status ≡ OmegaUserStatus.suspended
suspended_status user h = status_suspended user.status h

module _ {T : Type 0} (hash_token : T → String) (verify : Text → Text → Bool) (ttl : ℕ) where
  judge_user-Judged :
      (now : ℕ) (users : List (String × OmegaUser)) (s : OmegaAuthSession)
      (found : Option OmegaUser)
      → now ≤ s.expires_at
      → lookup s.user_id users ≡ found
      → Judged now users (some s) (judge_user hash_token verify ttl s.user_id found)
  judge_user-Judged now users s none h e = (s, refl, h, inl e)
  judge_user-Judged now users s (some user) h e = elim (Bool-cases (is_suspended user)) [
    | inl gone ↦ rw gone (s, refl, h, inr (user, e, suspended_status user gone))
    | inr good ↦ rw good (s, refl, refl, h, e, status_not_suspended user.status good)
  ]

  judge_session-Judged :
      (now : ℕ) (users : List (String × OmegaUser)) (session : Option OmegaAuthSession)
      → Judged now users session (judge_session hash_token verify ttl now users session)
  judge_session-Judged now users none = inl refl
  judge_session-Judged now users (some s) = elim (Bool-cases (ltb s.expires_at now)) [
    | inl late ↦ rw late (inr (s, refl, ground arith))
    | inr early ↦
        rw early (judge_user-Judged now users s (lookup s.user_id users) (ground arith) refl)
  ]

module _ {T : Type 0} (hash_token : T → String) (same : T → T → Bool) where
  -- The session of a token, by the events, the latest first.
  unfoldable pub session_of : T → List (TokenEvent T) → Option OmegaAuthSession
  session_of token [] = none
  session_of token (issued other session ∷ events) =
      if same other token then some session else session_of token events
  session_of token (ended other ∷ events) =
      if same other token then none else session_of token events
  session_of token (unchanged ∷ events) = session_of token events

  module _ (verify : Text → Text → Bool) (ttl : ℕ) where
    abbrev login_event : T → Answer (String × OmegaAuthSession) → TokenEvent T
    login_event token (granted (id, session)) = issued token session
    login_event token (denied e) = unchanged

    abbrev pub handle_auth : AuthRequest T → AuthTables → TokenEvent T × AuthTables
    handle_auth (log_in email password token now) tables =
        let r = login hash_token verify ttl email password token now tables in
        (login_event token r.0, r.1)
    handle_auth (log_out token) tables = (ended token, logout hash_token verify ttl token tables)

    -- The requests one after another, with the events of before.
    unfoldable pub run :
        List (AuthRequest T) → List (TokenEvent T) → AuthTables → List (TokenEvent T) × AuthTables
    run [] events tables = (events, tables)
    run (request ∷ requests) events tables =
        run requests ((handle_auth request tables).0 ∷ events) (handle_auth request tables).1

    -- The table keeps what the events say.
    abbrev pub Implements : List (TokenEvent T) → AuthTables → Type 0
    Implements events tables =
        (token : T) → lookup (hash_token token) tables.sessions ≡ session_of token events

    module _ (apart : (s t : T) → same s t ≡ str_eq (hash_token s) (hash_token t)) where
      login_found-Implements :
          (password : Text) (token : T) (now : ℕ) (events : List (TokenEvent T))
          (tables : AuthTables) (found : Option (String × OmegaUser))
          → Implements events tables
          → Implements
              (login_event token
                  (login_found hash_token verify ttl password token now tables found).0
                ∷ events)
              (login_found hash_token verify ttl password token now tables found).1
      unfolding session_of
      login_found-Implements password token now events tables none h = λ other. h other
      login_found-Implements password token now events tables (some (id, user)) h = λ other.
          let session : OmegaAuthSession = record {
            user_id = id;
            expires_at = expiry hash_token verify ttl now;
          } in
          ground (
            arith,
            lookup-insert (hash_token token) (hash_token other) session tables.sessions,
            apart token other,
            h other,
          )

      handle_auth-Implements :
          (request : AuthRequest T) (events : List (TokenEvent T)) (tables : AuthTables)
          → Implements events tables
          → Implements ((handle_auth request tables).0 ∷ events) (handle_auth request tables).1
      unfolding login logout session_of
      handle_auth-Implements (log_in email password token now) events tables h =
          login_found-Implements password token now events tables
            (find_by_email (lower email) tables.users) h
      handle_auth-Implements (log_out token) events tables h = λ other. ground (
        arith,
        lookup-erase (hash_token token) (hash_token other) tables.sessions,
        apart token other,
        h other,
      )

      run-Implements :
          (requests : List (AuthRequest T)) (events : List (TokenEvent T)) (tables : AuthTables)
          → Implements events tables
          → Implements (run requests events tables).0 (run requests events tables).1
      unfolding run
      run-Implements [] events tables h = h
      run-Implements (request ∷ requests) events tables h =
          run-Implements requests ((handle_auth request tables).0 ∷ events)
            (handle_auth request tables).1 (handle_auth-Implements request events tables h)

      -- After any requests on a table without sessions, where tokens of one hash are the same, the
      -- validation of a token answers by the last thing that was done to it. It is granted only
      -- to the user that it was issued to last, if it has not been logged out since, up to the
      -- millisecond at which it expires, and if the user is there and not suspended; it is refused
      -- as expired only if it was never issued, has been logged out or is past that time, and for
      -- its user only if the user is not there or is suspended.
      pub run-validate_session_token :
          (requests : List (AuthRequest T)) (users : List (String × OmegaUser)) (token : T)
          (now : ℕ)
          → let after = run requests [] (record { users = users; sessions = [] }) in
            Judged now after.1.users
              (session_of token after.0)
              (validate_session_token hash_token verify ttl token now after.1)
      unfolding validate_session_token session_of lookup
      run-validate_session_token requests users token now =
          let after = run requests [] (record { users = users; sessions = [] }) in
          subst
            (λ s. Judged now after.1.users s (
              judge_session hash_token verify ttl now after.1.users
                (lookup (hash_token token) after.1.sessions)))
            (run-Implements requests [] (record { users = users; sessions = [] }) (λ t. refl) token)
            (judge_session-Judged hash_token verify ttl now after.1.users
              (lookup (hash_token token) after.1.sessions))

split_one : (c : ℕ) (s : Text) → contains c s ≡ false → split c s ≡ s ∷ []
unfolding split
split_one c [] h = refl
split_one c (d ∷ s) h = ground (arith, split_one c s)

-- The hash of a password verifies it: where hexadecimal reads back, has no colon and is not empty
-- but of nothing, and neither the salt nor the derived key is empty.
pub verify_password-hash_password :
    (scrypt : Text → Text → Text) (to_hex from_hex : Text → Text) (salt password : Text)
    → ((bytes : Text) → from_hex (to_hex bytes) ≡ bytes)
    → ((bytes : Text) → contains b':' (to_hex bytes) ≡ false)
    → ((bytes : Text) → is_nil (to_hex bytes) ≡ is_nil bytes)
    → is_nil salt ≡ false
    → is_nil (scrypt password (to_hex salt)) ≡ false
    → verify_password scrypt from_hex password (hash_password scrypt to_hex salt password) ≡ true
unfolding verify_password hash_password
verify_password-hash_password scrypt to_hex from_hex salt password back colon full s k =
    let key = scrypt password (to_hex salt) in
    rw
      (
        split-append b':' (to_hex salt) (to_hex key),
        split_one b':' (to_hex salt) (colon salt),
        split_one b':' (to_hex key) (colon key),
        full salt,
        full key,
        s,
        k,
        back key,
      )
      (text_eq_refl key)
