-- ===== src/Server/Signing.antt =====
-- The handlers of backend/src/main.cpp for registration, login, logout and the current user. What
-- the service answers is an argument; a cookie is its token and the seconds that it lasts. A body is
-- a JSON object or none: on another JSON value the library throws.
use trainer.Prelude.{
  ℕ, Bool, ◌&&◌, Option, none, some, Bytes, codes, if◌then◌else◌, Result, ok, err,
}
use trainer.Auth.{
  AuthUser, AuthError, AuthErrorCode, AuthSession, invalid_credentials, duplicate_user, is_internal,
}
use trainer.Validation.{Json}

-- The body: an error, a user as `user_to_json` prints it, or `{"ok": true}`.
pub data SigningBody : Type 0 where
  failed_with : Bytes → SigningBody
  user_body : AuthUser → SigningBody
  signed_out : SigningBody

pub record SigningResponse : Type 0 where
  pub status : ℕ
  pub body : SigningBody
  pub cookie : Option (Bytes × ℕ)

abbrev pub session_cookie_lifetime_seconds : ℕ
session_cookie_lifetime_seconds = 2592000

abbrev refused : Bytes → ℕ → SigningResponse
refused message status = record { status = status; body = failed_with message; cookie = none }

abbrev error_status : AuthErrorCode → ℕ
error_status invalid_credentials = 401
error_status duplicate_user = 409
error_status _ = 400

unfoldable pub auth_result : Result AuthError AuthSession → SigningResponse
auth_result (ok session) = record {
  status = 200;
  body = user_body session.user;
  cookie = some (session.token, session_cookie_lifetime_seconds);
}
auth_result (err error) =
    if is_internal error.code
    then refused (codes "Authentication service is unavailable") 500
    else refused error.message (error_status error.code)

unfoldable pub current_user_response : Result AuthError AuthUser → SigningResponse
current_user_response (ok user) = record { status = 200; body = user_body user; cookie = none }
current_user_response (err error) =
    if is_internal error.code
    then refused (codes "Authentication service is unavailable") 500
    else refused (codes "Authentication required") 401

-- The cookie is emptied.
unfoldable pub logout_response : Result AuthError (Unit {0}) → SigningResponse
logout_response (ok u) = record { status = 200; body = signed_out; cookie = some (codes "", 0) }
logout_response (err error) = refused (codes "Authentication service is unavailable") 500

module _ {J : Type 0} (library : Json J) where
  open library use {member, is_string}

  abbrev credentials_given : J → Bool
  credentials_given json =
      is_string (member json (codes "username")) && is_string (member json (codes "password"))

module _ {J S : Type 0} (library : Json J) where
  open library use {member, as_string}

  -- A handler that takes credentials: `register_user` and `login` differ in the service's function
  -- and in the refusal.
  with_credentials :
      SigningResponse
      → (Bytes → Bytes → S → Result AuthError AuthSession × S)
      → Option J
      → S
      → SigningResponse × S
  unfolding auth_result
  with_credentials refusal sign none s = (refusal, s)
  with_credentials refusal sign (some json) s =
      if credentials_given library json
      then (
        auth_result
            (sign (as_string (member json (codes "username")))
              (as_string (member json (codes "password"))) s).0,
        (sign (as_string (member json (codes "username")))
            (as_string (member json (codes "password"))) s).1,
      )
      else (refusal, s)

  unfoldable pub register_user_handler :
      (Bytes → Bytes → S → Result AuthError AuthSession × S) → Option J → S → SigningResponse × S
  unfolding with_credentials
  register_user_handler register_user =
      with_credentials (refused (codes "Username and password are required") 400) register_user

  unfoldable pub login_handler :
      (Bytes → Bytes → S → Result AuthError AuthSession × S) → Option J → S → SigningResponse × S
  unfolding with_credentials
  login_handler login = with_credentials (refused (codes "Invalid username or password") 401) login
