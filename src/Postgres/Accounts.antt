-- ===== src/Postgres/Accounts.antt =====
-- `PostgreSQLAuthService` (backend/src/postgresql-auth-service.cpp) on the tables of users and
-- sessions. The password hashes, the hash of a token, the tokens and the server's `lower` are
-- arguments; the limits of credentials are those of `validate_credentials`. A text parameter reaches
-- the server up to its first NUL. The ids of users come from a sequence: an INSERT that meets a
-- stored name draws from it too, and one that the server refuses may have drawn.
use trainer.Prelude.{
  ℕ, suc, ◌+◌, nat_eq, byte_eq, ◌==◌, Bool, ◌||◌, ltb, Option, none, some, List, [], ◌∷◌, Bytes,
  codes, length, is_empty, if◌then◌else◌, Result, ok, err,
}
use trainer.Auth.{AuthUser, AuthError, duplicate_user, internal_error, validate_credentials}
use trainer.Auth.Accounts.{
  UserRow, Accounts, SessionResult, session_lifetime_seconds, find_session, session_user,
  delete_session, new_user, not_authenticated, bad_credentials,
}
use trainer.Auth.Admins.{promoted, admin_of}
use trainer.Postgres.{Reply}

-- `c_str()` of a parameter (backend/src/postgresql-client.cpp).
unfoldable pub sent : Bytes → Bytes
sent [] = []
sent (c ∷ cs) = let rest = sent cs in if c == 0 then [] else c ∷ rest

abbrev pub skip_ids : ℕ → Accounts → Accounts
skip_ids drawn a = record a { next_id = a.next_id + drawn }

module _ (lower : Bytes → Bytes) where
  -- WHERE lower(username) = lower($1)
  unfoldable pub find_lower : Bytes → List UserRow → Option UserRow
  find_lower username [] = none
  find_lower username (r ∷ rows) =
      let rest = find_lower username rows in
      if lower r.user.username == lower username then some r else rest

  -- DO UPDATE, on the row with the name.
  unfoldable pub promote_lower : Bytes → Bytes → List UserRow → List UserRow
  promote_lower username hash [] = []
  promote_lower username hash (r ∷ rows) =
      (if lower r.user.username == lower username then promoted hash r else r)
      ∷ promote_lower username hash rows

  -- INSERT ... ON CONFLICT((lower(username))) DO UPDATE ... RETURNING ...
  abbrev upsert_admin : Bytes → Bytes → Bytes → Option UserRow → Accounts → AuthUser × Accounts
  upsert_admin created_at username hash none a = (
    admin_of a username created_at,
    record a {
      users = record { user = admin_of a username created_at; password_hash = hash } ∷ a.users;
      next_id = suc a.next_id;
    },
  )
  upsert_admin created_at username hash (some r) a = (
    (promoted hash r).user,
    record a { users = promote_lower username hash a.users; next_id = suc a.next_id },
  )

  -- `ensure_admin` behind the tests of the credentials and the hash; `drawn` counts the ids that a
  -- refused statement has drawn.
  unfoldable pub ensure_hashed :
      Reply → ℕ → Bytes → Bytes → Bytes → Accounts → Result AuthError AuthUser × Accounts
  unfolding find_lower promote_lower sent
  ensure_hashed (some message) drawn created_at username hash a =
      (err (internal_error (codes "Could not initialize admin account")), skip_ids drawn a)
  ensure_hashed none drawn created_at username hash a =
      let (user, left) =
        upsert_admin created_at (sent username) hash (find_lower (sent username) a.users) a in
      (ok user, left)

  -- The hash is `none` where `crypto_pwhash_str` fails.
  unfoldable pub ensure_admin :
      Reply
      → ℕ
      → Bytes
      → Option Bytes
      → Bytes
      → Bytes
      → Accounts
      → Result AuthError AuthUser × Accounts
  unfolding validate_credentials ensure_hashed
  ensure_admin r drawn created_at hashed username password a =
      elim (validate_credentials username password) [
        | some error ↦ (err error, a)
        | none ↦ elim hashed [
          | none ↦ (err (internal_error (codes "Admin password hashing failed")), a)
          | some hash ↦ ensure_hashed r drawn created_at username hash a
        ]
      ]

  module _ (token_hash : Bytes → Bytes) where
    -- The INSERT of a session with the token that `pg_new_token` drew; `token_hash` is UNIQUE.
    unfoldable pub create_session : Reply → ℕ → Bytes → AuthUser → Accounts → SessionResult
    unfolding find_session
    create_session (some message) now token user a =
        (err (internal_error (codes "Could not create session")), a)
    create_session none now token user a = elim (find_session (token_hash token) a.sessions) [
      | some x ↦ (err (internal_error (codes "Could not create session")), a)
      | none ↦ (
        ok (record { user = user; token = token }),
        record a {
          sessions =
              record {
                user_id = user.id;
                hash = token_hash token;
                expires_at = now + session_lifetime_seconds;
              }
              ∷ a.sessions;
        },
      )
    ]

    -- `register_user` behind the tests of the credentials and the hash.
    unfoldable pub register_hashed :
        Reply → ℕ → Reply → ℕ → Bytes → Bytes → Bytes → Bytes → Accounts → SessionResult
    unfolding create_session find_lower sent
    register_hashed (some message) drawn storing now created_at token username hash a =
        (err (internal_error (codes "Could not create user")), skip_ids drawn a)
    register_hashed none drawn storing now created_at token username hash a =
        let user = new_user token_hash a (sent username) created_at in
        elim (find_lower (sent username) a.users) [
          | some r ↦ (
            err (record {
              code = duplicate_user;
              message = codes "Username is already registered";
            }),
            skip_ids 1 a,
          )
          | none ↦ create_session storing now token user (record a {
            users = record { user = user; password_hash = hash } ∷ a.users;
            next_id = suc a.next_id;
          })
        ]

    unfoldable pub register_user :
        Reply
        → ℕ
        → Reply
        → ℕ
        → Bytes
        → Bytes
        → Option Bytes
        → Bytes
        → Bytes
        → Accounts
        → SessionResult
    unfolding register_hashed validate_credentials
    register_user r drawn storing now created_at token hashed username password a =
        elim (validate_credentials username password) [
          | some error ↦ (err error, a)
          | none ↦ elim hashed [
            | none ↦ (err (internal_error (codes "Password hashing failed")), a)
            | some hash ↦ register_hashed r drawn storing now created_at token username hash a
          ]
        ]

    -- `login` behind the SELECT: the user's row, if there is one.
    unfoldable pub login_found :
        (Bytes → Bytes → Bool)
        → Reply
        → ℕ
        → Bytes
        → Bytes
        → Option UserRow
        → Accounts
        → SessionResult
    unfolding create_session
    login_found verify storing now token password none a = (err bad_credentials, a)
    login_found verify storing now token password (some r) a =
        if verify r.password_hash password
        then create_session storing now token r.user a
        else (err bad_credentials, a)

    unfoldable pub login :
        (Bytes → Bytes → Bool)
        → Reply
        → Reply
        → ℕ
        → Bytes
        → Bytes
        → Bytes
        → Accounts
        → SessionResult
    unfolding login_found find_lower sent
    login verify r storing now token username password a =
        if is_empty username
          || (ltb 64 (length username) || (is_empty password || ltb 128 (length password)))
        then (err bad_credentials, a)
        else elim r [
          | some message ↦ (err (internal_error (codes "Could not retrieve user")), a)
          | none ↦
              login_found verify storing now token password (find_lower (sent username) a.users) a
        ]

    unfoldable pub current_user : Reply → ℕ → Bytes → Accounts → Result AuthError AuthUser
    unfolding session_user
    current_user r now token a = if is_empty token then err not_authenticated else elim r [
      | some message ↦ err (internal_error (codes "Could not retrieve session"))
      | none ↦ elim (session_user token_hash now token a) [
        | none ↦ err not_authenticated
        | some user ↦ ok user
      ]
    ]

    unfoldable pub logout : Reply → Bytes → Accounts → Result AuthError (Unit {0}) × Accounts
    unfolding delete_session
    logout r token a = if is_empty token then (ok tt, a) else elim r [
      | some message ↦ (err (internal_error (codes "Could not invalidate session")), a)
      | none ↦ (ok tt, record a { sessions = delete_session (token_hash token) a.sessions })
    ]
