-- ===== src/Auth/Sessions.antt =====
-- Sessions of backend/src/auth-service.cpp behind a login and behind a logout.
use trainer.Prelude.{
  ℕ, ◌+◌, ◌<◌, ◌≡◌, ◌≢◌, refl, sym, subst, ◌∙◌, inl, inr, Bool, false, ◌||◌, length, Bool-cases,
  Option-cases, none, some, List, [], ◌∷◌, Bytes, bytes_beq, bytes_beq_iff, is_empty, ltb, lt→ltb,
  ok, err, arith,
}
use trainer.Auth.{AuthUser, AuthSession}
use trainer.Auth.Accounts.{
  UserRow, SessionRow, Accounts, session_lifetime_seconds, find_name, find_user, find_session,
  delete_session, not_authenticated, create_session, login_found, login, session_user, current_user,
  logout,
}
use trainer.Sqlite.{works}

-- The users' ids fall along the rows and stay below the bound.
abbrev pub UsersBelow : ℕ → List UserRow → Type 0
UsersBelow n [] = Unit {0}
UsersBelow n (r ∷ rows) = (r.user.id < n) × UsersBelow r.user.id rows

find_name-lt :
    (n : ℕ) (username : Bytes) (rows : List UserRow) (r : UserRow)
    → UsersBelow n rows
    → find_name username rows ≡ some r
    → r.user.id < n
unfolding find_name
find_name-lt n username [] r b h = ground (arith, h)
find_name-lt n username (x ∷ rows) r b h =
    ground (arith, h, b.0, find_name-lt x.user.id username rows r b.1)

find_name-find_user :
    (n : ℕ) (username : Bytes) (rows : List UserRow) (r : UserRow)
    → UsersBelow n rows
    → find_name username rows ≡ some r
    → find_user r.user.id rows ≡ some r
unfolding find_name find_user
find_name-find_user n username [] r b h = ground (arith, h)
find_name-find_user n username (x ∷ rows) r b h = ground (
  arith,
  h,
  find_name-lt x.user.id username rows r b.1,
  find_name-find_user x.user.id username rows r b.1,
)

find_session-delete_session :
    (hash : Bytes) (sessions : List SessionRow)
    → find_session hash (delete_session hash sessions) ≡ none
unfolding find_session delete_session
find_session-delete_session hash [] = refl
find_session-delete_session hash (x ∷ sessions) = elim (Bool-cases (bytes_beq x.hash hash)) [
  | inl t ↦ rw t (find_session-delete_session hash sessions)
  | inr t ↦ rw t (rw (t, find_session-delete_session hash sessions) refl)
]

find_session-delete_session_ne :
    (hash other : Bytes) (sessions : List SessionRow)
    → other ≢ hash
    → find_session other (delete_session hash sessions) ≡ find_session other sessions
unfolding find_session delete_session
find_session-delete_session_ne hash other [] ne = refl
find_session-delete_session_ne hash other (x ∷ sessions) ne =
    elim (Bool-cases (bytes_beq x.hash hash)) [
      | inl t ↦ elim (Bool-cases (bytes_beq x.hash other)) [
        | inl u ↦
            absurd (ne (sym ((bytes_beq_iff x.hash other).0 u) ∙ (bytes_beq_iff x.hash hash).0 t))
        | inr u ↦ rw (t, u) (find_session-delete_session_ne hash other sessions ne)
      ]
      | inr t ↦ rw t (elim (Bool-cases (bytes_beq x.hash other)) [
        | inl u ↦ rw u refl
        | inr u ↦ rw u (find_session-delete_session_ne hash other sessions ne)
      ])
    ]

module _ (token_hash : Bytes → Bytes) (a : Accounts) where
  -- After a logout that works, a token that is not empty belongs to nobody.
  pub logout-current_user :
      (now : ℕ) (token : Bytes)
      → is_empty token ≡ false
      → current_user token_hash works now token (logout token_hash works token a).1
        ≡ err not_authenticated
  unfolding current_user logout session_user
  logout-current_user now token h =
      rw (h, find_session-delete_session (token_hash token) a.sessions) refl

  logout-left :
      (token : Bytes)
      → is_empty token ≡ false
      → (logout token_hash works token a).1
        ≡ record a { sessions = delete_session (token_hash token) a.sessions }
  unfolding logout
  logout-left token t = rw (t, logout) refl

  -- A logout that works leaves the sessions of the tokens with another hash as they are.
  pub logout-session_user :
      (now : ℕ) (token other : Bytes)
      → token_hash other ≢ token_hash token
      → session_user token_hash now other (logout token_hash works token a).1
        ≡ session_user token_hash now other a
  unfolding logout session_user
  logout-session_user now token other ne = elim (Bool-cases (is_empty token)) [
    | inl t ↦ rw (t, logout) refl
    | inr t ↦ rw (logout-left token t) (
        rw
          (
            session_user,
            find_session-delete_session_ne (token_hash token) (token_hash other) a.sessions ne,
          )
          refl)
  ]

  create_session-left :
      (now : ℕ) (token : Bytes) (user : AuthUser)
      → find_session (token_hash token) a.sessions ≡ none
      → (create_session token_hash works now token user a).1 ≡ record a {
        sessions =
            record {
              user_id = user.id;
              hash = token_hash token;
              expires_at = now + session_lifetime_seconds;
            }
            ∷ a.sessions;
      }
  unfolding create_session
  create_session-left now token user q = rw (q, create_session) refl

  create_session-current_user :
      (now later : ℕ) (token : Bytes) (r : UserRow) (s : AuthSession)
      → is_empty token ≡ false
      → find_user r.user.id a.users ≡ some r
      → later < now + session_lifetime_seconds
      → (create_session token_hash works now token r.user a).0 ≡ ok s
      → current_user token_hash works later token
          (create_session token_hash works now token r.user a).1
        ≡ ok s.user
  unfolding current_user session_user create_session find_session
  create_session-current_user now later token r s h found l e =
      elim (Option-cases (find_session (token_hash token) a.sessions)) [
        | inr (x, q) ↦ absurd (ground (arith, e, q))
        | inl q ↦
            subst (λ left. current_user token_hash works later token left ≡ ok s.user)
              (sym (create_session-left now token r.user q))
              (rw
                (
                  h,
                  (bytes_beq_iff (token_hash token) (token_hash token)).1 refl,
                  lt→ltb later (now + session_lifetime_seconds) l,
                  found,
                )
                (ground (arith, q, e)))
      ]

  -- Who logs in with a token that is not empty is the current user for that token until the
  -- session's lifetime is over, where the users' ids fall along their rows and the lookup works.
  pub login-current_user :
      (verify : Bytes → Bytes → Bool) (now later : ℕ) (token username password : Bytes)
      (s : AuthSession)
      → UsersBelow a.next_id a.users
      → is_empty token ≡ false
      → later < now + session_lifetime_seconds
      → (login token_hash verify works works now token username password a).0 ≡ ok s
      → current_user token_hash works later token
          (login token_hash verify works works now token username password a).1
        ≡ ok s.user
  unfolding login login_found
  login-current_user verify now later token username password s b h l e =
      elim (Bool-cases (
        is_empty username
        || (ltb 64 (length username) || (is_empty password || ltb 128 (length password))))) [
          | inl t ↦ absurd (ground (arith, e, t))
          | inr t ↦ elim (Option-cases (find_name username a.users)) [
            | inl q ↦ absurd (ground (arith, e, t, q))
            | inr (r, q) ↦ elim (Bool-cases (verify r.password_hash password)) [
              | inr v ↦ absurd (ground (arith, e, t, q, v))
              | inl v ↦
                  rw (t, q, login, login_found, v)
                    (create_session-current_user now later token r s h
                      (find_name-find_user a.next_id username a.users r b q) l
                      (ground (arith, e, t, q, v)))
            ]
          ]
        ]
