-- ===== src/Server/Lookups.antt =====
-- The handlers of backend/src/main.cpp that look submissions up and retry them: `get_submission`,
-- `submission_history`, `admin_submissions` and `admin_retry_submission`, with `require_admin` and
-- `positive_id`. A session lookup and the answers of the services are arguments.
use trainer.Prelude.{
  ℕ, ◌+◌, ◌-◌, ◌*◌, Bool, ◌&&◌, ◌||◌, not, ltb, leb, Option, none, some, List, [], ◌∷◌, Bytes,
  codes, nat_eq, byte_eq, ◌==◌, all_of, is_empty, if◌then◌else◌, Result, ok, err,
}
use trainer.Submission.{
  SubmissionRecord, SubmissionStatus, queued, running, completed, failed, RepositoryError,
}
use trainer.Problem.{Problem}
use trainer.Auth.{AuthUser, AuthError, is_internal}
use trainer.Service.{SubmissionServiceError}
use trainer.Sqlite.Reads.{SubmissionAdminFilter}
use trainer.Server.{Response, error_response, submission_body, submissions_body}

abbrev is_digit : ℕ → Bool
is_digit c = leb b'0' c && leb c b'9'

digits_value : ℕ → Bytes → ℕ
digits_value value [] = value
digits_value value (c ∷ cs) = digits_value (value * 10 + (c - b'0')) cs

-- The greatest `std::int64_t`.
abbrev pub maximum_id : ℕ
maximum_id = 9223372036854775807

-- `std::from_chars` up to the end of the text, and a value above 0. A minus sign never gives one.
unfoldable pub positive_id : Bytes → Option ℕ
unfolding digits_value
positive_id raw =
    if is_empty raw || not (all_of is_digit raw)
    then none
    else if digits_value 0 raw == 0 || ltb maximum_id (digits_value 0 raw)
    then none
    else some (digits_value 0 raw)

abbrev unauthorized : AuthError → Response
unauthorized error =
    if is_internal error.code
    then error_response (codes "Authentication service is unavailable") 500
    else error_response (codes "Authentication required") 401

-- The response that is sent, or none where the handler may go on.
unfoldable pub require_admin : Result AuthError AuthUser → Option Response
require_admin (ok user) =
    if user.is_admin
    then none
    else some (error_response (codes "Administrator access required") 403)
require_admin (err error) = some (unauthorized error)

abbrev json_response : SubmissionRecord → ℕ → Response
json_response r status = record { status = status; body = submission_body r; headers = [] }

-- What the service found.
unfoldable pub found_response : Result SubmissionServiceError (Option SubmissionRecord) → Response
found_response (err error) = error_response (codes "Submission could not be retrieved") 500
found_response (ok none) = error_response (codes "Submission not found") 404
found_response (ok (some r)) = json_response r 200

unfoldable pub get_submission :
    (ℕ → Result SubmissionServiceError (Option SubmissionRecord)) → Bytes → Response
unfolding positive_id found_response
get_submission find raw_id = elim (positive_id raw_id) [
  | none ↦ error_response (codes "Submission id must be a positive integer") 400
  | some id ↦ found_response (find id)
]

unfoldable pub history_response : Result SubmissionServiceError (List SubmissionRecord) → Response
history_response (err error) =
    error_response (codes "Submission history could not be retrieved") 500
history_response (ok rows) = record { status = 200; body = submissions_body rows; headers = [] }

unfoldable pub submission_history :
    Result Bytes (Option Problem)
    → Result AuthError AuthUser
    → (ℕ → Result SubmissionServiceError (List SubmissionRecord))
    → Response
unfolding history_response
submission_history (err message) authenticated history =
    error_response (codes "Problem could not be retrieved") 500
submission_history (ok none) authenticated history = error_response (codes "Problem not found") 404
submission_history (ok (some problem)) (err error) history = unauthorized error
submission_history (ok (some problem)) (ok user) history = history_response (history user.id)

-- `optional_parameter`: an empty parameter is none.
unfoldable pub optional_parameter : Bytes → Option Bytes
optional_parameter value = if is_empty value then none else some value

unfoldable pub status_filter : Bytes → Option SubmissionStatus
status_filter status =
    if status == codes "Failed"
    then some failed
    else if status == codes "Queued"
    then some queued
    else if status == codes "Running"
    then some running
    else if status == codes "Completed"
    then some completed
    else none

unfoldable pub list_response : Result RepositoryError (List SubmissionRecord) → Response
list_response (err error) = error_response (codes "Submissions could not be retrieved") 500
list_response (ok rows) = record { status = 200; body = submissions_body rows; headers = [] }

unfoldable pub admin_found : Result RepositoryError (Option SubmissionRecord) → Response
admin_found (err error) = error_response (codes "Submission could not be retrieved") 500
admin_found (ok none) = error_response (codes "Submission not found") 404
admin_found (ok (some r)) = json_response r 200

module _ (parameter : Bytes → Bytes)
    (list_filtered : SubmissionAdminFilter → Result RepositoryError (List SubmissionRecord)) where
  abbrev filter_with : Option SubmissionStatus → Option ℕ → SubmissionAdminFilter
  filter_with status user = record {
    status = status;
    error_type = optional_parameter (parameter (codes "errorType"));
    language = optional_parameter (parameter (codes "language"));
    problem_id = optional_parameter (parameter (codes "problemId"));
    user_id = user;
    created_from = optional_parameter (parameter (codes "from"));
    created_to = optional_parameter (parameter (codes "to"));
  }

  -- Behind the status.
  unfoldable pub list_of_user : Option SubmissionStatus → Option Bytes → Response
  unfolding positive_id list_response optional_parameter
  list_of_user status none = list_response (list_filtered (filter_with status none))
  list_of_user status (some user_id) = elim (positive_id user_id) [
    | none ↦ error_response (codes "User id must be a positive integer") 400
    | some id ↦ list_response (list_filtered (filter_with status (some id)))
  ]

  unfoldable pub list_with_status : Option Bytes → Response
  unfolding status_filter list_of_user optional_parameter
  list_with_status none = list_of_user none (optional_parameter (parameter (codes "userId")))
  list_with_status (some text) = elim (status_filter text) [
    | none ↦ error_response (codes "Unknown submission status filter") 400
    | some status ↦ list_of_user (some status) (optional_parameter (parameter (codes "userId")))
  ]

  -- `admin_submissions` with the id in the path, if there is one.
  unfoldable pub admin_submissions :
      (ℕ → Result RepositoryError (Option SubmissionRecord))
      → Result AuthError AuthUser
      → Option Bytes
      → Response
  unfolding require_admin admin_found positive_id list_with_status optional_parameter
  admin_submissions find authenticated raw_id = elim (require_admin authenticated) [
    | some response ↦ response
    | none ↦ elim raw_id [
      | none ↦ list_with_status (optional_parameter (parameter (codes "status")))
      | some raw ↦ elim (positive_id raw) [
        | none ↦ error_response (codes "Submission id must be a positive integer") 400
        | some id ↦ admin_found (find id)
      ]
    ]
  ]

module _ {S : Type 0} (retry : ℕ → ℕ → S → Result RepositoryError SubmissionRecord × S)
    (notify_workers : S → S) where
  -- The handler behind the call of the repository.
  unfoldable pub retry_response : Result RepositoryError SubmissionRecord × S → Option Response × S
  retry_response (err error, s) = (some (error_response error.message 409), s)
  retry_response (ok r, s) = (some (json_response r 202), notify_workers s)

  -- The session is looked up twice; a second lookup without a user throws: there is no response.
  unfoldable pub admin_retry_submission :
      Result AuthError AuthUser → Result AuthError AuthUser → Bytes → S → Option Response × S
  unfolding require_admin positive_id retry_response
  admin_retry_submission authenticated again raw_id s = elim (require_admin authenticated) [
    | some response ↦ (some response, s)
    | none ↦ elim (positive_id raw_id) [
      | none ↦ (some (error_response (codes "Submission id must be a positive integer") 400), s)
      | some id ↦ elim again [
        | err error ↦ (none, s)
        | ok admin ↦ retry_response (retry id admin.id s)
      ]
    ]
  ]
