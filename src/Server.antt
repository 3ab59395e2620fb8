-- ===== src/Server.antt =====
-- The handler of POST /api/submissions (`submit` of backend/src/main.cpp); `Lookups` and `Signing`
-- have the others. The web framework, the JSON library and the services are interfaces, here
-- parameters; a response is its status, its body and its headers. The log is left out.
pub mod Submitting
pub mod Lookups
pub mod Guards
pub mod Signing
pub mod Problems
pub mod Changes
pub mod Catalogues
pub mod Conflicts
pub mod Profile
pub mod Profiles
use trainer.Prelude.{
  ℕ, Bool, true, false, ◌||◌, not, Option, none, some, List, [], ◌∷◌, Bytes, codes, byte_eq, ◌==◌,
  is_empty, if◌then◌else◌, Result, ok, err,
}
use trainer.Submission.{SubmissionRequest, SubmissionRecord}
use trainer.Problem.{Problem, ProblemTestCase}
use trainer.Auth.{AuthUser, AuthError, is_internal}
use trainer.Service.{
  SubmissionServiceError, SubmissionServiceErrorCode, internal, rate_limited, queue_full, Submitted,
}
use trainer.Validation.{Json, validate_submission}

-- `{"error": message}`, or what the printers print: `submission_to_json` or
-- `admin_submission_to_json`, `problem_to_json`, `admin_problem_to_json`, the array of
-- `problem_summary_to_json` without and with `enabled`, `admin_problem_test_to_json`; or nothing.
pub data Body : Type 0 where
  error_body : Bytes → Body
  submission_body : SubmissionRecord → Body
  submissions_body : List SubmissionRecord → Body
  problem_body admin_problem_body : Problem → Body
  problems_body admin_problems_body : List Problem → Body
  admin_test_body : ProblemTestCase → Body
  no_body : Body

pub record Response : Type 0 where
  pub status : ℕ
  pub body : Body
  pub headers : List (Bytes × Bytes)

abbrev pub error_response : Bytes → ℕ → Response
error_response message status = record { status = status; body = error_body message; headers = [] }

-- `std::ranges::find(languages, language) != end`.
unfoldable pub offers : Bytes → List Bytes → Bool
offers language [] = false
offers language (l ∷ languages) = l == language || offers language languages

abbrev pub is_limit : SubmissionServiceErrorCode → Bool
is_limit rate_limited = true
is_limit queue_full = true
is_limit internal = false

-- What the handler says of the service's result.
unfoldable pub respond : Submitted → Response
respond (ok submission) = record { status = 202; body = submission_body submission; headers = [] }
respond (err error) =
    if is_limit error.code
    then record {
      status = 429;
      body = error_body error.message;
      headers = (codes "Retry-After", codes "2") ∷ [];
    }
    else error_response (codes "Submission could not be judged") 500

-- The owner of a submission: the user of the session, nobody without one, or an internal error.
unfoldable pub owner_of : (Bytes → Result AuthError AuthUser) → Bytes → Option (Option ℕ)
owner_of current_user token = if is_empty token then some none else elim (current_user token) [
  | ok authenticated ↦ some (some authenticated.id)
  | err error ↦ if is_internal error.code then none else some none
]

module _ {J S : Type 0} (library : Json J) (find_problem : Bytes → Result Bytes (Option Problem))
    (current_user : Bytes → Result AuthError AuthUser)
    (submit_submission : SubmissionRequest → S → Submitted × S) where
  -- The end of the handler: the owner, and the call of the service.
  unfoldable pub submit_owned : Bytes → SubmissionRequest → S → Response × S
  unfolding owner_of respond
  submit_owned token submission s = elim (owner_of current_user token) [
    | none ↦ (error_response (codes "Submission could not be accepted") 500, s)
    | some owner ↦
        let (result, left) = submit_submission (record submission { user_id = owner }) s in
        (respond result, left)
  ]

  -- The handler behind the validation of the body.
  unfoldable pub submit_valid : Bytes → SubmissionRequest → S → Response × S
  unfolding offers submit_owned
  submit_valid token submission s = elim (find_problem submission.problem_id) [
    | err message ↦ (error_response (codes "Submission could not be accepted") 500, s)
    | ok none ↦ (error_response (codes "Unsupported problemId") 400, s)
    | ok (some problem) ↦
        if not (offers submission.language problem.languages)
        then (error_response (codes "Unsupported language") 400, s)
        else submit_owned token submission s
  ]

  -- The body is `none` where it is no JSON; the token is empty without a cookie.
  unfoldable pub submit : Option J → Bytes → S → Response × S
  unfolding submit_valid
  submit none token s = (error_response (codes "Request body must contain valid JSON") 400, s)
  submit (some json) token s = elim (validate_submission library json) [
    | err message ↦ (error_response message 400, s)
    | ok submission ↦ submit_valid token submission s
  ]
