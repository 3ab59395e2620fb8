-- ===== src/Tests/Requests.antt =====
-- Submissions from the request to the queue: backend/src/submission.cpp, submission-service.cpp and
-- the handler of backend/src/main.cpp, with a JSON value that is the list of its string fields.
use trainer.Prelude.{
  ◌≡◌, ◌↔◌, ◌⊎◌, Bool, true, false, none, some, Option, List, [], ◌∷◌, Bytes, codes, byte_eq, ◌==◌,
  if◌then◌else◌, Result, ok, err,
}
use trainer.Submission.{SubmissionRequest}
use trainer.Problem.{Problem, easy}
use trainer.Auth.{AuthUser, AuthError, unauthenticated}
use trainer.Sqlite.{SubmissionQueueLimits}
use trainer.Sqlite.Calls.{empty}
use trainer.Service.{Submitted, submit}
use trainer.Service.Submitting.{Counted, counted_create, count_call, Answered, submit-Answered}
use trainer.Validation.{Json, extracted, validate_submission}
use trainer.Validation.Accepting.{IsSubmission, validate_submission_iff}
use trainer.Server.{submit as handle}
use trainer.Server.Submitting.{Refused, Forwarded, submit_lem}

-- A field is a name and a text; any other value is no string.
data Value : Type 0 where
  text : Bytes → Value
  object : List (Bytes × Bytes) → Value
  null : Value

abbrev field : List (Bytes × Bytes) → Bytes → Option Bytes
field [] name = none
field ((n, value) ∷ fields) name = if n == name then some value else field fields name

abbrev has : Value → Bytes → Bool
has (object fields) name = elim (field fields name) [ none ↦ false | some value ↦ true ]
has _ name = false

abbrev at : Value → Bytes → Value
at (object fields) name = elim (field fields name) [ none ↦ null | some value ↦ text value ]
at _ name = null

abbrev is_fields : Value → Bool
is_fields (object fields) = true
is_fields _ = false

abbrev is_text : Value → Bool
is_text (text value) = true
is_text _ = false

abbrev as_text : Value → Bytes
as_text (text value) = value
as_text _ = []

abbrev values : Json Value
values = record {
  is_object = is_fields;
  is_member = has;
  member = at;
  is_string = is_text;
  as_string = as_text;
}

abbrev body : Value
body = object (
    (codes "problemId", codes "echo")
    ∷ (codes "language", codes "python")
    ∷ (codes "code", codes "print(1)")
    ∷ [])

abbrev request : SubmissionRequest
request = record {
  problem_id = codes "echo";
  language = codes "python";
  code = codes "print(1)";
  user_id = none;
}

validate_submission_iff_example :
    (validate_submission values body ≡ ok request)
    ↔ ((request ≡ extracted values body) × IsSubmission values body)
validate_submission_iff_example = validate_submission_iff values body request

abbrev limits : SubmissionQueueLimits
limits = record {
  maximum_active_submissions = 3;
  maximum_active_submissions_per_user = 2;
  maximum_running_submissions_per_user = 1;
}

submit-Answered_example :
    Answered limits [] request empty 0
      (submit (counted_create limits []) (some count_call) request (empty, 0))
submit-Answered_example = submit-Answered limits [] request empty 0

abbrev echo : Problem
echo = record {
  id = codes "echo";
  title = [];
  description = [];
  input_format = [];
  output_format = [];
  difficulty = easy;
  tags = [];
  languages = codes "python" ∷ [];
  examples = [];
  enabled = true;
  revision = 1;
  hidden_tests = [];
}

abbrev catalogue : Bytes → Result Bytes (Option Problem)
catalogue slug = ok (some echo)

abbrev nobody : Bytes → Result AuthError AuthUser
nobody token = err (record { code = unauthenticated; message = codes "Authentication required" })

abbrev service : SubmissionRequest → Counted → Submitted × Counted
service = submit (counted_create limits []) (some count_call)

submit_lem_example :
    Refused values catalogue nobody service []
      (empty, 0)
      (handle values catalogue nobody service (some body) [] (empty, 0))
    ⊎ ((json : Value) × (some body ≡ some json)
        × IsSubmission values json
        × Forwarded values catalogue nobody service []
            (empty, 0)
            (extracted values json)
            (handle values catalogue nobody service (some body) [] (empty, 0)))
submit_lem_example = submit_lem values catalogue nobody service [] (empty, 0) (some body)
