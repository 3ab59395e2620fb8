-- ===== src/Server/Problems.antt =====
-- The handlers of problems (backend/src/main.cpp): `get_problem`, `list_problems` and those of the
-- administrator, `admin_list_problems`, `admin_get_problem`, `admin_write_problem`,
-- `admin_delete_problem`, `admin_write_test` and `admin_delete_test`. The session lookups are
-- arguments, the repositories an interface.
use trainer.Prelude.{
  ℕ, Bool, true, false, Option, none, some, List, [], ◌++◌, Bytes, codes, byte_eq, ◌==◌, decimal,
  if◌then◌else◌, Result, ok, err,
}
use trainer.Submission.{RepositoryError}
use trainer.Problem.{Problem, ProblemTestCase}
use trainer.Table.{AuditEntry}
use trainer.Auth.{AuthUser, AuthError}
use trainer.Catalogue.{ProblemRepositoryError}
use trainer.Catalogue.Reading.{Found}
use trainer.Administration.{AdminJson, parse_admin_problem, parse_admin_test}
use trainer.Server.{
  Body, Response, error_response, problem_body, problems_body, admin_problem_body,
  admin_problems_body, admin_test_body, no_body,
}
use trainer.Server.Lookups.{require_admin, positive_id}

abbrev pub response : Body → ℕ → Response
response body status = record { status = status; body = body; headers = [] }

-- With what `ProblemService::find` answers.
unfoldable pub get_problem : Found → Response
get_problem (err e) = error_response (codes "Problem could not be retrieved") 500
get_problem (ok none) = error_response (codes "Problem not found") 404
get_problem (ok (some problem)) = response (problem_body problem) 200

unfoldable pub list_problems : Result ProblemRepositoryError (List Problem) → Response
list_problems (err e) = error_response (codes "Problems could not be retrieved") 500
list_problems (ok problems) = response (problems_body problems) 200

all_listed : Result ProblemRepositoryError (List Problem) → Response
all_listed (err e) = error_response (codes "Problems could not be retrieved") 500
all_listed (ok problems) = response (admin_problems_body problems) 200

unfoldable pub admin_list_problems :
    Result AuthError AuthUser → Result ProblemRepositoryError (List Problem) → Response
unfolding require_admin all_listed
admin_list_problems authenticated listed = elim (require_admin authenticated) [
  | some refusal ↦ refusal
  | none ↦ all_listed listed
]

any_found : Found → Response
any_found (err e) = error_response (codes "Problem could not be retrieved") 500
any_found (ok none) = error_response (codes "Problem not found") 404
any_found (ok (some problem)) = response (admin_problem_body problem) 200

unfoldable pub admin_get_problem : Result AuthError AuthUser → Found → Response
unfolding require_admin any_found
admin_get_problem authenticated found = elim (require_admin authenticated) [
  | some refusal ↦ refusal
  | none ↦ any_found found
]

-- What the handlers call of the two repositories.
pub record Repositories (S : Type 0) : Type 0 where
  pub create : Problem → S → Result ProblemRepositoryError Problem × S
  pub update : Problem → S → Result ProblemRepositoryError Problem × S
  pub remove : Bytes → S → Result ProblemRepositoryError Bool × S
  pub create_test : Bytes → ProblemTestCase → S → Result ProblemRepositoryError ProblemTestCase × S
  pub update_test : Bytes → ProblemTestCase → S → Result ProblemRepositoryError ProblemTestCase × S
  pub remove_test : Bytes → ℕ → S → Result ProblemRepositoryError Bool × S
  pub audit : AuditEntry → S → Result RepositoryError (Unit {0}) × S

abbrev pub entry_of : ℕ → Bytes → Bytes → Bytes → AuditEntry
entry_of admin action entity_type entity_id = record {
  admin_user_id = admin;
  action = action;
  entity_type = entity_type;
  entity_id = entity_id;
  details_json = codes "{}";
}

-- The id of a test in the audit log.
abbrev pub test_entity : Bytes → ℕ → Bytes
test_entity problem_id id = problem_id ++ (codes ":" ++ decimal id)

-- 404 for one message that says so, and else 409.
abbrev pub write_status : Bytes → ℕ
write_status message = if message == codes "Problem not found" then 404 else 409

module _ {S : Type 0} (repositories : Repositories S) where
  open repositories use {create, update, remove, create_test, update_test, remove_test, audit}

  -- `audit_admin_change` for `authenticated_admin_id`, and the response: the session is looked up
  -- again, and a lookup without a user throws, so that there is no response and no entry. An entry
  -- that cannot be written is only logged.
  unfoldable pub audited :
      Result AuthError AuthUser → Bytes → Bytes → Bytes → Response → S → Option Response × S
  audited (err e) action entity_type entity_id answer s = (none, s)
  audited (ok admin) action entity_type entity_id answer s =
      (some answer, (audit (entry_of admin.id action entity_type entity_id) s).1)

  -- Behind the call of the repository.
  unfoldable pub problem_written :
      Result AuthError AuthUser
      → Bool
      → Result ProblemRepositoryError Problem × S
      → Option Response × S
  unfolding audited
  problem_written again updates (err e, s) =
      (some (error_response e.message (write_status e.message)), s)
  problem_written again updates (ok problem, s) =
      audited again (if updates then codes "problem.update" else codes "problem.create")
        (codes "problem") problem.id
        (response (admin_problem_body problem) (if updates then 200 else 201)) s

  -- The id stands in the path where a problem is updated.
  unfoldable pub write_parsed :
      Result AuthError AuthUser → Option Bytes → Problem → S → Option Response × S
  unfolding problem_written
  write_parsed again none problem s = problem_written again false (create problem s)
  write_parsed again (some id) problem s = problem_written again true (update problem s)

  unfoldable pub write_valid :
      Result AuthError AuthUser → Option Bytes → Result Bytes Problem → S → Option Response × S
  unfolding write_parsed
  write_valid again id (err message) s = (some (error_response message 400), s)
  write_valid again id (ok problem) s = write_parsed again id problem s

  unfoldable pub removed :
      Result AuthError AuthUser
      → Bytes
      → Bytes
      → Bytes
      → Bytes
      → Bytes
      → Result ProblemRepositoryError Bool × S
      → Option Response × S
  unfolding audited
  removed again failed missing action entity_type entity_id (err e, s) =
      (some (error_response failed 409), s)
  removed again failed missing action entity_type entity_id (ok false, s) =
      (some (error_response missing 404), s)
  removed again failed missing action entity_type entity_id (ok true, s) =
      audited again action entity_type entity_id (response no_body 204) s

  unfoldable pub admin_delete_problem :
      Result AuthError AuthUser → Result AuthError AuthUser → Bytes → S → Option Response × S
  unfolding require_admin removed
  admin_delete_problem authenticated again id s = elim (require_admin authenticated) [
    | some refusal ↦ (some refusal, s)
    | none ↦
        removed again (codes "Problem could not be deleted") (codes "Problem not found")
          (codes "problem.delete") (codes "problem") id (remove id s)
  ]

  unfoldable pub admin_delete_test :
      Result AuthError AuthUser
      → Result AuthError AuthUser
      → Bytes
      → Bytes
      → S
      → Option Response × S
  unfolding require_admin removed
  admin_delete_test authenticated again problem_id raw_test_id s =
      elim (require_admin authenticated) [
        | some refusal ↦ (some refusal, s)
        | none ↦ elim (positive_id raw_test_id) [
          | none ↦ (some (error_response (codes "Test id must be a positive integer") 400), s)
          | some id ↦
              removed again (codes "Hidden test could not be deleted")
                (codes "Hidden test not found") (codes "problem-test.delete") (codes "problem-test")
                (test_entity problem_id id) (remove_test problem_id id s)
        ]
      ]

  unfoldable pub test_written :
      Result AuthError AuthUser
      → Bytes
      → Bool
      → Result ProblemRepositoryError ProblemTestCase × S
      → Option Response × S
  unfolding audited
  test_written again problem_id updates (err e, s) = (some (error_response e.message 409), s)
  test_written again problem_id updates (ok test, s) =
      audited again (if updates then codes "problem-test.update" else codes "problem-test.create")
        (codes "problem-test") (test_entity problem_id test.id)
        (response (admin_test_body test) (if updates then 200 else 201)) s

  unfoldable pub write_test :
      Result AuthError AuthUser → Bytes → Bool → ProblemTestCase → S → Option Response × S
  unfolding test_written
  write_test again problem_id true test s =
      test_written again problem_id true (update_test problem_id test s)
  write_test again problem_id false test s =
      test_written again problem_id false (create_test problem_id test s)

  unfoldable pub write_valid_test :
      Result AuthError AuthUser
      → Bytes
      → Bool
      → Result Bytes ProblemTestCase
      → S
      → Option Response × S
  unfolding write_test
  write_valid_test again problem_id updates (err message) s = (some (error_response message 400), s)
  write_valid_test again problem_id updates (ok test) s = write_test again problem_id updates test s

  module _ {J : Type 0} (library : AdminJson J) where
    -- The body is `none` where it is no JSON; there is no response where the parser throws.
    unfoldable pub admin_write_problem :
        Result AuthError AuthUser
        → Result AuthError AuthUser
        → Option J
        → Option Bytes
        → S
        → Option Response × S
    unfolding require_admin write_valid
    admin_write_problem authenticated again body id s = elim (require_admin authenticated) [
      | some refusal ↦ (some refusal, s)
      | none ↦ elim body [
        | none ↦ (some (error_response (codes "Request body must contain valid JSON") 400), s)
        | some json ↦ elim (parse_admin_problem library json id) [
          | none ↦ (none, s)
          | some parsed ↦ write_valid again id parsed s
        ]
      ]
    ]

    -- Behind the id of the test, which is 0 for a new one.
    unfoldable pub write_test_body :
        Result AuthError AuthUser → Option J → Bytes → ℕ → Bool → S → Option Response × S
    unfolding write_valid_test
    write_test_body again none problem_id id updates s =
        (some (error_response (codes "Request body must contain valid JSON") 400), s)
    write_test_body again (some json) problem_id id updates s =
        elim (parse_admin_test library json id) [
          | none ↦ (none, s)
          | some parsed ↦ write_valid_test again problem_id updates parsed s
        ]

    unfoldable pub admin_write_test :
        Result AuthError AuthUser
        → Result AuthError AuthUser
        → Option J
        → Bytes
        → Option Bytes
        → S
        → Option Response × S
    unfolding require_admin write_test_body
    admin_write_test authenticated again body problem_id raw_test_id s =
        elim (require_admin authenticated) [
          | some refusal ↦ (some refusal, s)
          | none ↦ elim raw_test_id [
            | none ↦ write_test_body again body problem_id 0 false s
            | some raw ↦ elim (positive_id raw) [
              | none ↦ (some (error_response (codes "Test id must be a positive integer") 400), s)
              | some id ↦ write_test_body again body problem_id id true s
            ]
          ]
        ]

-- A request of the administrator's pages that may change the catalogue.
pub data ChangeRequest (J : Type 0) : Type 0 where
  writes_problem : Option J → Option Bytes → ChangeRequest J
  deletes_problem : Bytes → ChangeRequest J
  writes_test : Option J → Bytes → Option Bytes → ChangeRequest J
  deletes_test : Bytes → Bytes → ChangeRequest J

-- The handler that the route of the request names.
unfoldable pub handle :
    {S J : Type 0}
    → Repositories S
    → AdminJson J
    → Result AuthError AuthUser
    → Result AuthError AuthUser
    → ChangeRequest J
    → S
    → Option Response × S
unfolding admin_write_problem admin_delete_problem admin_write_test admin_delete_test
handle repositories library authenticated again (writes_problem body id) s =
    admin_write_problem repositories library authenticated again body id s
handle repositories library authenticated again (deletes_problem id) s =
    admin_delete_problem repositories authenticated again id s
handle repositories library authenticated again (writes_test body problem_id raw_test_id) s =
    admin_write_test repositories library authenticated again body problem_id raw_test_id s
handle repositories library authenticated again (deletes_test problem_id raw_test_id) s =
    admin_delete_test repositories authenticated again problem_id raw_test_id s
