-- ===== src/Postgres/Administrator.antt =====
-- The account of the administrator, which backend/src/postgresql-auth-service.cpp makes at the start
-- of the program.
use trainer.Prelude.{
  ℕ, suc, ◌==◌, byte_eq, ◌≡◌, refl, Bool, true, false, ◌||◌, none, some, List, [], ◌∷◌, Bytes,
  bytes_beq_iff, is_empty, ltb, length, arith, ok, inl, inr, Bool-cases, Option-cases,
}
use trainer.Auth.{AuthUser, validate_credentials}
use trainer.Auth.Credentials.{validate_credentials_iff}
use trainer.Auth.Accounts.{UserRow, Accounts, find_session}
use trainer.Auth.Admins.{promoted, admin_of}
use trainer.Postgres.Accounts.{
  sent, find_lower, promote_lower, create_session, login_found, login, ensure_hashed, ensure_admin,
}

same_lower : (lower : Bytes → Bytes) (username : Bytes) → (lower username == lower username) ≡ true
same_lower lower username = (bytes_beq_iff (lower username) (lower username)).1 refl

find_lower-promote_lower :
    (lower : Bytes → Bytes) (username hash : Bytes) (rows : List UserRow) (r : UserRow)
    → find_lower lower username rows ≡ some r
    → find_lower lower username (promote_lower lower username hash rows) ≡ some (promoted hash r)
unfolding find_lower promote_lower
find_lower-promote_lower lower username hash [] r h = ground (arith, h)
find_lower-promote_lower lower username hash (x ∷ rows) r h =
    elim (Bool-cases (lower x.user.username == lower username)) [
      | inl t ↦ ground (arith, t, h)
      | inr t ↦ ground (arith, t, h, find_lower-promote_lower lower username hash rows r)
    ]

-- A password and a name that a registration admits are not refused by a login.
login_admits :
    (username password : Bytes)
    → validate_credentials username password ≡ none
    → (is_empty username
        || (ltb 64 (length username) || (is_empty password || ltb 128 (length password))))
      ≡ false
login_admits [] password v =
    let h = (validate_credentials_iff [] password).0 v in ground (arith, h.0)
login_admits (c ∷ cs) [] v =
    let h = (validate_credentials_iff (c ∷ cs) []).0 v in ground (arith, h.3)
login_admits (c ∷ cs) (d ∷ ds) v =
    let h = (validate_credentials_iff (c ∷ cs) (d ∷ ds)).0 v in ground (arith, h.1, h.4)

module _ (lower token_hash : Bytes → Bytes) (verify : Bytes → Bytes → Bool) where
  -- A login with a name that is found, a password that fits, and a new token.
  login-found :
      (now : ℕ) (token username password : Bytes) (r : UserRow) (a : Accounts)
      → validate_credentials username password ≡ none
      → find_lower lower (sent username) a.users ≡ some r
      → verify r.password_hash password ≡ true
      → find_session (token_hash token) a.sessions ≡ none
      → (login lower token_hash verify none none now token username password a).0
        ≡ ok (record { user = r.user; token = token })
  unfolding login login_found create_session
  login-found now token username password r a v f w fresh =
      rw (login, login_admits username password v, f, login_found, w, create_session, fresh) refl

  -- The start synchronizes the administrator's password: where the credentials are valid and their
  -- hash fits the password, `ensure_admin` of the PostgreSQL service, if the server carries its
  -- statement out, returns an administrator, who then logs in with that name and password, if the
  -- statements of the login work and its token is new, whether the account is new or was stored with
  -- another password.
  pub ensure_admin-login :
      (now drawn : ℕ) (created_at token username password hash : Bytes) (a : Accounts)
      → validate_credentials username password ≡ none
      → verify hash password ≡ true
      → find_session (token_hash token) a.sessions ≡ none
      → let (answer, left) =
          ensure_admin lower none drawn created_at (some hash) username password a in
        (user : AuthUser) × (answer ≡ ok user)
        × (user.is_admin ≡ true)
        × ((login lower token_hash verify none none now token username password left).0
            ≡ ok (record { user = user; token = token }))
  unfolding ensure_admin ensure_hashed
  ensure_admin-login now drawn created_at token username password hash a v w fresh =
      elim (Option-cases (find_lower lower (sent username) a.users)) [
        | inl e ↦
            rw (ensure_admin, v, ensure_hashed, e)
              (
                admin_of a (sent username) created_at,
                refl,
                refl,
                login-found now token username password
                    (record { user = admin_of a (sent username) created_at; password_hash = hash })
                    (record a {
                      users =
                          record {
                            user = admin_of a (sent username) created_at;
                            password_hash = hash;
                          }
                          ∷ a.users;
                      next_id = suc a.next_id;
                    })
                    v (found_first a.users) w fresh,
              )
        | inr (r, e) ↦
            rw (ensure_admin, v, ensure_hashed, e)
              (
                (promoted hash r).user,
                refl,
                refl,
                login-found now token username password (promoted hash r)
                    (record a {
                      users = promote_lower lower (sent username) hash a.users;
                      next_id = suc a.next_id;
                    })
                    v (find_lower-promote_lower lower (sent username) hash a.users r e) w fresh,
              )
      ]
    where
      found_first :
          (rows : List UserRow)
          → find_lower lower
              (sent username)
              (record { user = admin_of a (sent username) created_at; password_hash = hash } ∷ rows)
            ≡ some (record { user = admin_of a (sent username) created_at; password_hash = hash })
      found_first rows = rw (find_lower, same_lower lower (sent username)) refl
