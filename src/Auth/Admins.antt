-- ===== src/Auth/Admins.antt =====
-- `ensure_admin` of backend/src/auth-service.cpp: the account of the administrator, made at the
-- start of the program.
use trainer.Prelude.{
  suc, true, ◌≡◌, inl, inr, Option-cases, Option, none, some, List, [], ◌∷◌, Bytes, codes, ◌&&◌,
  if◌then◌else◌, Result, ok, err, arith,
}
use trainer.Auth.{AuthUser, AuthError, internal_error, validate_credentials}
use trainer.Auth.Accounts.{UserRow, Accounts, same_name, find_name}
use trainer.Sqlite.{Outcome, works, invalid, fails}

abbrev pub promoted : Bytes → UserRow → UserRow
promoted hash r = record r { user = record r.user { is_admin = true }; password_hash = hash }

-- DO UPDATE, on the row with the name.
unfoldable pub promote : Bytes → Bytes → List UserRow → List UserRow
promote username hash [] = []
promote username hash (r ∷ rows) =
    (if same_name r.user.username username then promoted hash r else r) ∷ promote username hash rows

-- WHERE username = ? COLLATE NOCASE AND is_admin = 1
unfoldable pub find_admin : Bytes → List UserRow → Option AuthUser
find_admin username [] = none
find_admin username (r ∷ rows) =
    let rest = find_admin username rows in
    if same_name r.user.username username && r.user.is_admin then some r.user else rest

-- The second statement, where the first returns no row.
unfoldable pub existing_admin : Outcome → Bytes → Accounts → Result AuthError AuthUser
unfolding find_admin
existing_admin (invalid e) username a = err (internal_error e)
existing_admin (fails e) username a =
    err (internal_error (codes "Could not initialize admin account"))
existing_admin works username a = elim (find_admin username a.users) [
  | none ↦ err (internal_error (codes "Could not initialize admin account"))
  | some user ↦ ok user
]

abbrev pub admin_of : Accounts → Bytes → Bytes → AuthUser
admin_of a username created_at = record {
  id = a.next_id;
  username = username;
  created_at = created_at;
  is_admin = true;
}

-- INSERT ... ON CONFLICT(username) DO UPDATE ... WHERE users.is_admin = 0 RETURNING ...
unfoldable pub upsert_found :
    Outcome
    → Bytes
    → Bytes
    → Bytes
    → Option UserRow
    → Accounts
    → Result AuthError AuthUser × Accounts
unfolding existing_admin promote
upsert_found existing created_at username hash none a = (
  ok (admin_of a username created_at),
  record a {
    users = record { user = admin_of a username created_at; password_hash = hash } ∷ a.users;
    next_id = suc a.next_id;
  },
)
upsert_found existing created_at username hash (some r) a =
    if r.user.is_admin
    then (existing_admin existing username a, a)
    else (ok (promoted hash r).user, record a { users = promote username hash a.users })

unfoldable pub ensure_hashed :
    Outcome → Outcome → Bytes → Bytes → Bytes → Accounts → Result AuthError AuthUser × Accounts
unfolding upsert_found existing_admin find_name
ensure_hashed (invalid e) existing created_at username hash a = (err (internal_error e), a)
ensure_hashed (fails e) existing created_at username hash a =
    (existing_admin existing username a, a)
ensure_hashed works existing created_at username hash a =
    upsert_found existing created_at username hash (find_name username a.users) a

-- The hash is `none` where `crypto_pwhash_str` fails.
unfoldable pub ensure_admin :
    Outcome
    → Outcome
    → Bytes
    → Option Bytes
    → Bytes
    → Bytes
    → Accounts
    → Result AuthError AuthUser × Accounts
unfolding ensure_hashed validate_credentials
ensure_admin o existing created_at hashed username password a =
    elim (validate_credentials username password) [
      | some error ↦ (err error, a)
      | none ↦ elim hashed [
        | none ↦ (err (internal_error (codes "Admin password hashing failed")), a)
        | some hash ↦ ensure_hashed o existing created_at username hash a
      ]
    ]

find_admin-is_admin :
    (username : Bytes) (rows : List UserRow) (user : AuthUser)
    → find_admin username rows ≡ some user
    → user.is_admin ≡ true
unfolding find_admin
find_admin-is_admin username [] user h = ground (arith, h)
find_admin-is_admin username (r ∷ rows) user h =
    ground (arith, h, find_admin-is_admin username rows user)

existing_admin-is_admin :
    (existing : Outcome) (username : Bytes) (a : Accounts) (user : AuthUser)
    → existing_admin existing username a ≡ ok user
    → user.is_admin ≡ true
unfolding existing_admin
existing_admin-is_admin (invalid e) username a user h = ground (arith, h)
existing_admin-is_admin (fails e) username a user h = ground (arith, h)
existing_admin-is_admin works username a user h =
    ground (arith, h, find_admin-is_admin username a.users user)

upsert_found-is_admin :
    (existing : Outcome) (created_at username hash : Bytes) (o : Option UserRow) (a : Accounts)
    (user : AuthUser)
    → (upsert_found existing created_at username hash o a).0 ≡ ok user
    → user.is_admin ≡ true
unfolding upsert_found
upsert_found-is_admin existing created_at username hash none a user h = ground (arith, h)
upsert_found-is_admin existing created_at username hash (some r) a user h =
    ground (arith, h, existing_admin-is_admin existing username a user)

ensure_hashed-is_admin :
    (o existing : Outcome) (created_at username hash : Bytes) (a : Accounts) (user : AuthUser)
    → (ensure_hashed o existing created_at username hash a).0 ≡ ok user
    → user.is_admin ≡ true
unfolding ensure_hashed
ensure_hashed-is_admin (invalid e) existing created_at username hash a user h = ground (arith, h)
ensure_hashed-is_admin (fails e) existing created_at username hash a user h =
    existing_admin-is_admin existing username a user h
ensure_hashed-is_admin works existing created_at username hash a user h =
    upsert_found-is_admin existing created_at username hash (find_name username a.users) a user h

-- Whatever the statements' outcomes, the user that `ensure_admin` returns is an administrator.
pub ensure_admin-is_admin :
    (o existing : Outcome) (created_at : Bytes) (hashed : Option Bytes) (username password : Bytes)
    (a : Accounts) (user : AuthUser)
    → (ensure_admin o existing created_at hashed username password a).0 ≡ ok user
    → user.is_admin ≡ true
unfolding ensure_admin
ensure_admin-is_admin o existing created_at hashed username password a user h =
    elim (Option-cases (validate_credentials username password)) [
      | inr (e, v) ↦ absurd (ground (arith, h, v))
      | inl v ↦ elim (Option-cases hashed) [
        | inl n ↦ absurd (ground (arith, h, v, n))
        | inr (hash, n) ↦
            ensure_hashed-is_admin o existing created_at username hash a user
              (ground (arith, h, v, n))
      ]
    ]
