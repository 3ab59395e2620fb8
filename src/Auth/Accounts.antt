-- ===== src/Auth/Accounts.antt =====
-- `AuthService` on its tables of users and sessions (backend/src/auth-service.cpp). The password
-- hashes, the hash of a token and the tokens come from a library: they are arguments. Times are
-- numbers, in the order of the texts that the tables hold.
use trainer.Prelude.{
  ℕ, suc, ◌+◌, ◌*◌, Bool, false, ◌&&◌, ◌||◌, ltb, leb, Option, none, some, List, [], ◌∷◌, Bytes,
  codes, nat_eq, nat_beq, byte_eq, bytes_beq, length, is_empty, map, if◌then◌else◌, Result, ok, err,
}
use trainer.Auth.{
  AuthUser, AuthError, AuthSession, duplicate_user, invalid_credentials, unauthenticated,
  internal_error, validate_credentials,
}
use trainer.Sqlite.{Outcome, works, invalid, fails}

pub record UserRow : Type 0 where
  pub user : AuthUser
  pub password_hash : Bytes

pub record SessionRow : Type 0 where
  pub user_id : ℕ
  pub hash : Bytes
  pub expires_at : ℕ

pub record Accounts : Type 0 where
  pub users : List UserRow
  pub next_id : ℕ
  pub sessions : List SessionRow

abbrev pub session_lifetime_seconds : ℕ
session_lifetime_seconds = 60 * 60 * 24 * 30

-- COLLATE NOCASE folds the ASCII letters.
abbrev pub fold : ℕ → ℕ
fold c = if leb b'A' c && leb c b'Z' then c + 32 else c

unfoldable pub same_name : Bytes → Bytes → Bool
same_name a b = bytes_beq (map fold a) (map fold b)

unfoldable pub find_name : Bytes → List UserRow → Option UserRow
unfolding same_name
find_name username [] = none
find_name username (r ∷ rows) =
    let rest = find_name username rows in
    if same_name r.user.username username then some r else rest

unfoldable pub find_user : ℕ → List UserRow → Option UserRow
find_user id [] = none
find_user id (r ∷ rows) =
    let rest = find_user id rows in if nat_beq r.user.id id then some r else rest

unfoldable pub find_session : Bytes → List SessionRow → Option SessionRow
find_session hash [] = none
find_session hash (x ∷ sessions) =
    let rest = find_session hash sessions in if bytes_beq x.hash hash then some x else rest

-- DELETE FROM sessions WHERE token_hash = ?
unfoldable pub delete_session : Bytes → List SessionRow → List SessionRow
delete_session hash [] = []
delete_session hash (x ∷ sessions) =
    let rest = delete_session hash sessions in if bytes_beq x.hash hash then rest else x ∷ rest

abbrev pub bad_credentials : AuthError
bad_credentials = record {
  code = invalid_credentials;
  message = codes "Invalid username or password";
}

abbrev pub not_authenticated : AuthError
not_authenticated = record { code = unauthenticated; message = codes "Authentication required" }

abbrev pub SessionResult : Type 0
SessionResult = Result AuthError AuthSession × Accounts

module _ (token_hash : Bytes → Bytes) where
  -- `create_session` with the token that `new_token` drew; `token_hash` is UNIQUE.
  unfoldable pub create_session : Outcome → ℕ → Bytes → AuthUser → Accounts → SessionResult
  unfolding find_session
  create_session (invalid e) now token user a = (err (internal_error e), a)
  create_session (fails e) now token user a =
      (err (internal_error (codes "Could not create session")), a)
  create_session works now token user a = elim (find_session (token_hash token) a.sessions) [
    | some x ↦ (err (internal_error (codes "Could not create session")), a)
    | none ↦ (
      ok (record { user = user; token = token }),
      record a {
        sessions =
            record {
              user_id = user.id;
              hash = token_hash token;
              expires_at = now + session_lifetime_seconds;
            }
            ∷ a.sessions;
      },
    )
  ]

  abbrev pub new_user : Accounts → Bytes → Bytes → AuthUser
  new_user a username created_at = record {
    id = a.next_id;
    username = username;
    created_at = created_at;
    is_admin = false;
  }

  -- `register_user` behind the tests of the credentials and the hash.
  unfoldable pub register_hashed :
      Outcome → Outcome → ℕ → Bytes → Bytes → Bytes → Bytes → Accounts → SessionResult
  unfolding create_session find_name
  register_hashed (invalid e) storing now created_at token username hash a =
      (err (internal_error e), a)
  register_hashed (fails e) storing now created_at token username hash a =
      (err (internal_error (codes "Could not create user")), a)
  register_hashed works storing now created_at token username hash a =
      elim (find_name username a.users) [
        | some r ↦ (
          err (record { code = duplicate_user; message = codes "Username is already registered" }),
          a,
        )
        | none ↦ create_session storing now token (new_user a username created_at) (record a {
          users = record { user = new_user a username created_at; password_hash = hash } ∷ a.users;
          next_id = suc a.next_id;
        })
      ]

  -- The hash is `none` where `crypto_pwhash_str` fails.
  unfoldable pub register_user :
      Outcome
      → Outcome
      → ℕ
      → Bytes
      → Bytes
      → Option Bytes
      → Bytes
      → Bytes
      → Accounts
      → SessionResult
  unfolding register_hashed validate_credentials
  register_user o storing now created_at token hashed username password a =
      elim (validate_credentials username password) [
        | some error ↦ (err error, a)
        | none ↦ elim hashed [
          | none ↦ (err (internal_error (codes "Password hashing failed")), a)
          | some hash ↦ register_hashed o storing now created_at token username hash a
        ]
      ]

  -- `login` behind the SELECT: the user's row, if there is one.
  unfoldable pub login_found :
      (Bytes → Bytes → Bool)
      → Outcome
      → ℕ
      → Bytes
      → Bytes
      → Option UserRow
      → Accounts
      → SessionResult
  unfolding create_session
  login_found verify storing now token password none a = (err bad_credentials, a)
  login_found verify storing now token password (some r) a =
      if verify r.password_hash password
      then create_session storing now token r.user a
      else (err bad_credentials, a)

  -- A SELECT that fails counts as no user.
  unfoldable pub login :
      (Bytes → Bytes → Bool)
      → Outcome
      → Outcome
      → ℕ
      → Bytes
      → Bytes
      → Bytes
      → Accounts
      → SessionResult
  unfolding login_found find_name
  login verify o storing now token username password a =
      if is_empty username
        || (ltb 64 (length username) || (is_empty password || ltb 128 (length password)))
      then (err bad_credentials, a)
      else elim o [
        | invalid e ↦ (err (internal_error e), a)
        | fails e ↦ login_found verify storing now token password none a
        | works ↦ login_found verify storing now token password (find_name username a.users) a
      ]

  -- The user of a session that is not over.
  unfoldable pub session_user : ℕ → Bytes → Accounts → Option AuthUser
  unfolding find_session find_user
  session_user now token a = elim (find_session (token_hash token) a.sessions) [
    | none ↦ none
    | some x ↦
        if ltb now x.expires_at
        then elim (find_user x.user_id a.users) [ none ↦ none | some r ↦ some r.user ]
        else none
  ]

  unfoldable pub current_user : Outcome → ℕ → Bytes → Accounts → Result AuthError AuthUser
  unfolding session_user
  current_user o now token a = if is_empty token then err not_authenticated else elim o [
    | invalid e ↦ err (internal_error e)
    | fails e ↦ err not_authenticated
    | works ↦ elim (session_user now token a) [ none ↦ err not_authenticated | some user ↦ ok user ]
  ]

  unfoldable pub logout : Outcome → Bytes → Accounts → Result AuthError (Unit {0}) × Accounts
  unfolding delete_session
  logout o token a = if is_empty token then (ok tt, a) else elim o [
    | invalid e ↦ (err (internal_error e), a)
    | fails e ↦ (err (internal_error (codes "Could not invalidate session")), a)
    | works ↦ (ok tt, record a { sessions = delete_session (token_hash token) a.sessions })
  ]
