-- ===== src/Auth/Credentials.antt =====
-- Which credentials a user may register with.
use trainer.Prelude.{◌≡◌, ◌≤◌, ◌↔◌, true, none, Bytes, length, all_of, arith}
use trainer.Auth.{is_username_character, validate_credentials}

-- Credentials are accepted exactly if the name has 3 to 64 characters, all of them letters, digits,
-- dots, underscores or hyphens, and the password has 8 to 128 characters.
pub validate_credentials_iff :
    (username password : Bytes)
    → (validate_credentials username password ≡ none) ↔ (
        (3 ≤ length username)
        × (length username ≤ 64)
        × (all_of is_username_character username ≡ true)
        × (8 ≤ length password)
        × (length password ≤ 128))
unfolding validate_credentials
validate_credentials_iff username password = (
  λ h. (
    ground (arith, h),
    ground (arith, h),
    ground (arith, h),
    ground (arith, h),
    ground (arith, h),
  ),
  λ (a, b, c, d, e). ground (arith, a, b, c, d, e),
)
