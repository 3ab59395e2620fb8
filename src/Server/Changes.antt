-- ===== src/Server/Changes.antt =====
-- Who may change the catalogue, and what is written (the administrator's handlers of
-- backend/src/main.cpp).
use trainer.Prelude.{
  arith, false, ◌≡◌, ◌⊎◌, refl, subst, inl, inr, true, Option, none, some, Bytes, Result, ok, err,
  Bool-cases, Option-cases,
}
use trainer.Problem.{Problem}
use trainer.Auth.{AuthUser, AuthError}
use trainer.Administration.{AdminJson, reads_names, parse_admin_problem}
use trainer.Administration.Limits.{
  Limited, EachLimited, AnyLimited, parse_admin_problem-EachLimited,
}
use trainer.Server.{Response}
use trainer.Server.Lookups.{require_admin}
use trainer.Server.Problems.{
  Repositories, write_parsed, write_valid, admin_write_problem, admin_delete_problem,
  admin_write_test, admin_delete_test, ChangeRequest, writes_problem, deletes_problem, writes_test,
  deletes_test, handle,
}

-- A session that belongs to an administrator.
pub record IsAdministrator (authenticated : Result AuthError AuthUser) : Type 0 where
  pub user : AuthUser
  pub signed_in : authenticated ≡ ok user
  pub admin : user.is_admin ≡ true

require_admin-cases :
    (authenticated : Result AuthError AuthUser)
    → ((refusal : Response) × (require_admin authenticated ≡ some refusal))
      ⊎ (IsAdministrator authenticated × (require_admin authenticated ≡ none))
unfolding require_admin
require_admin-cases (err e) = inl (_, refl)
require_admin-cases (ok user) = elim (Bool-cases user.is_admin) [
  | inl t ↦ inr (record { user = user; signed_in = refl; admin = t }, rw t refl)
  | inr t ↦ rw t (inl (_, refl))
]

module _ {S J : Type 0} (repositories : Repositories S) (library : AdminJson J)
    (authenticated again : Result AuthError AuthUser) where
  -- A request of the administrator's pages changes nothing, the audit log included, unless the
  -- caller's session belongs to an administrator.
  pub handle-IsAdministrator :
      (request : ChangeRequest J) (s : S)
      → ((handle repositories library authenticated again request s).1 ≡ s)
        ⊎ IsAdministrator authenticated
  unfolding handle admin_write_problem admin_delete_problem admin_write_test admin_delete_test
  handle-IsAdministrator request s = elim (require_admin-cases authenticated) [
    | inr (admin, e) ↦ inr admin
    | inl (refusal, e) ↦ inl (unchanged request refusal e)
  ]
    where
      unchanged :
          (request : ChangeRequest J) (refusal : Response)
          → require_admin authenticated ≡ some refusal
          → (handle repositories library authenticated again request s).1 ≡ s
      unchanged (writes_problem body id) refusal e = rw (e, handle, admin_write_problem) refl
      unchanged (deletes_problem id) refusal e = rw (e, handle, admin_delete_problem) refl
      unchanged (writes_test body problem_id raw) refusal e = rw (e, handle, admin_write_test) refl
      unchanged (deletes_test problem_id raw) refusal e = rw (e, handle, admin_delete_test) refl

  -- What a request to write a problem comes to.
  pub data Attempt (body : Option J) (id : Option Bytes) (s : S)
      : Option Response × S → Type 0 where
    answered : (answer : Response) → Attempt body id s (some answer, s)
    thrown :
        (json : J)
        → body ≡ some json
        → reads_names library id ≡ true
        → library.has_names json ≡ false
        → Attempt body id s (none, s)
    written :
        (json : J) (problem : Problem)
        → IsAdministrator authenticated
        → body ≡ some json
        → parse_admin_problem library json id ≡ some (ok problem)
        → Limited problem
        → Attempt body id s (write_parsed repositories again id problem s)

  valid-Attempt :
      (json : J) (body : Option J) (id : Option Bytes) (parsed : Result Bytes Problem) (s : S)
      → IsAdministrator authenticated
      → body ≡ some json
      → parse_admin_problem library json id ≡ some parsed
      → EachLimited parsed
      → Attempt body id s (write_valid repositories again id parsed s)
  unfolding write_valid
  valid-Attempt json body id (err message) s admin b p limited = answered _
  valid-Attempt json body id (ok problem) s admin b p limited =
      written json problem admin b p limited

  thrown_on :
      (json : J) (id : Option Bytes)
      → parse_admin_problem library json id ≡ none
      → (reads_names library id ≡ true) × (library.has_names json ≡ false)
  unfolding parse_admin_problem
  thrown_on json id p = (ground (arith, p), ground (arith, p))

  -- A request to write a problem changes nothing and is answered; or it changes nothing and has no
  -- response, since a member is read of a body that is neither an object nor null, which throws; or
  -- the caller is an administrator, the body is a problem within the limits, and the repository is
  -- asked once to write it.
  pub admin_write_problem_lem :
      (body : Option J) (id : Option Bytes) (s : S)
      → Attempt body id s (admin_write_problem repositories library authenticated again body id s)
  unfolding admin_write_problem
  admin_write_problem_lem body id s = elim (require_admin-cases authenticated) [
    | inl (refusal, e) ↦ rw (e, admin_write_problem) (answered refusal)
    | inr (admin, e) ↦ elim (Option-cases body) [
      | inl b ↦ rw (e, b, admin_write_problem) (answered _)
      | inr (json, b) ↦ elim (Option-cases (parse_admin_problem library json id)) [
        | inl p ↦
            rw (admin_write_problem, e, b, p)
              (thrown json refl (thrown_on json id p).0 (thrown_on json id p).1)
        | inr (parsed, p) ↦
            rw (admin_write_problem, e, b, p)
              (valid-Attempt json (some json) id parsed s admin refl p
                (subst AnyLimited p (parse_admin_problem-EachLimited library json id)))
      ]
    ]
  ]
