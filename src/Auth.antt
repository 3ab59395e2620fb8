-- ===== src/Auth.antt =====
-- The users and the errors of the authentication service
-- (backend/include/algorithm-trainer/auth-service.h), and the limits of credentials
-- (`validate_credentials` of backend/src/auth-service.cpp).
pub mod Credentials
pub mod Accounts
pub mod Sessions
pub mod Admins
use trainer.Prelude.{
  ℕ, Bool, true, false, ◌&&◌, ◌||◌, not, Option, none, some, Bytes, codes, ltb, leb, nat_eq, ◌==◌,
  length, all_of, if◌then◌else◌,
}

pub record AuthUser : Type 0 where
  pub id : ℕ
  pub username : Bytes
  pub created_at : Bytes
  pub is_admin : Bool

pub data AuthErrorCode : Type 0 where
  invalid_input duplicate_user invalid_credentials unauthenticated internal : AuthErrorCode

pub record AuthError : Type 0 where
  pub code : AuthErrorCode
  pub message : Bytes

abbrev pub is_internal : AuthErrorCode → Bool
is_internal internal = true
is_internal _ = false

pub record AuthSession : Type 0 where
  pub user : AuthUser
  pub token : Bytes

abbrev pub internal_error : Bytes → AuthError
internal_error message = record { code = internal; message = message }

abbrev pub is_username_character : ℕ → Bool
is_username_character c =
    (leb b'0' c && leb c b'9')
    || ((leb b'A' c && leb c b'Z')
        || ((leb b'a' c && leb c b'z') || (c == b'_' || (c == b'-' || c == b'.'))))

-- The error of the first test that fails.
unfoldable pub validate_credentials : Bytes → Bytes → Option AuthError
validate_credentials username password =
    if ltb (length username) 3 || ltb 64 (length username)
    then some (record {
      code = invalid_input;
      message = codes "Username must contain between 3 and 64 characters";
    })
    else if not (all_of is_username_character username)
    then some (record {
      code = invalid_input;
      message = codes "Username may contain only letters, numbers, dots, underscores, and hyphens";
    })
    else if ltb (length password) 8 || ltb 128 (length password)
    then some (record {
      code = invalid_input;
      message = codes "Password must contain between 8 and 128 characters";
    })
    else none
