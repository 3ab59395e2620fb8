-- ===== src/Tests/Signing.antt =====
-- Sessions of backend/src/auth-service.cpp, with the identity for the hash of a token and equality
-- for the test of a password.
use trainer.Prelude.{
  ◌≡◌, ◌≤◌, ◌↔◌, refl, true, false, none, some, [], ◌∷◌, Bytes, codes, bytes_beq, length, all_of,
  map, ok, err, arith,
}
use trainer.Auth.{AuthUser}
use trainer.Auth.Accounts.{fold, Accounts, not_authenticated, login, current_user, logout}
use trainer.Auth.Sessions.{login-current_user, logout-current_user}
use trainer.Auth.Admins.{ensure_admin}
use trainer.Postgres.Accounts as Postgres
use trainer.Postgres.Administrator.{ensure_admin-login}
use trainer.Sqlite.{works}

abbrev ada : AuthUser
ada = record { id = 1; username = codes "Ada"; created_at = []; is_admin = false }

abbrev accounts : Accounts
accounts = record {
  users = record { user = ada; password_hash = codes "lovelace" } ∷ [];
  next_id = 2;
  sessions = record { user_id = 1; hash = codes "first"; expires_at = 100 } ∷ [];
}

abbrev plain : Bytes → Bytes
plain token = token

-- The name is found whatever its case.
ada_logs_in :
    (login plain bytes_beq works works 50
      (codes "token")
      (codes "ada")
      (codes "lovelace")
      accounts).0
    ≡ ok (record { user = ada; token = codes "token" })
unfolding login codes bytes_beq
ada_logs_in = refl

login-current_user_example :
    current_user plain works 60
      (codes "token")
      (login plain bytes_beq works works 50
        (codes "token")
        (codes "ada")
        (codes "lovelace")
        accounts).1
    ≡ ok ada
unfolding codes
login-current_user_example =
    login-current_user plain accounts bytes_beq 50 60 (codes "token") (codes "ada")
      (codes "lovelace") (record { user = ada; token = codes "token" }) (omega arith, tt) refl
      (omega arith) ada_logs_in

logout-current_user_example :
    current_user plain works 60 (codes "first") (logout plain works (codes "first") accounts).1
    ≡ err not_authenticated
unfolding codes
logout-current_user_example = logout-current_user plain accounts 60 (codes "first") refl

abbrev made_admin : AuthUser
made_admin = record ada { is_admin = true }

ada_is_made_admin :
    (ensure_admin works works [] (some (codes "hash")) (codes "ADA") (codes "lovelace") accounts).0
    ≡ ok made_admin
unfolding ensure_admin codes bytes_beq trainer.Prelude.all_of
ada_is_made_admin = refl

abbrev lower_ascii : Bytes → Bytes
lower_ascii text = map fold text

-- Ada is stored with another password.
ensure_admin-login_example :
    let (answer, left) =
      Postgres.ensure_admin lower_ascii none 0 []
        (some (codes "countess"))
        (codes "ada")
        (codes "countess")
        accounts in
    (user : AuthUser) × (answer ≡ ok user)
    × (user.is_admin ≡ true)
    × ((Postgres.login lower_ascii plain bytes_beq none none 50
          (codes "token")
          (codes "ada")
          (codes "countess")
          left).0
        ≡ ok (record { user = user; token = codes "token" }))
unfolding codes bytes_beq trainer.Auth.validate_credentials trainer.Prelude.all_of
    trainer.Auth.Accounts.find_session
ensure_admin-login_example =
    ensure_admin-login lower_ascii plain bytes_beq 50 0 [] (codes "token") (codes "ada")
      (codes "countess") (codes "countess") accounts refl refl refl
