-- ===== src/Validation.antt =====
-- `validate_submission` (backend/src/submission.cpp). JSON values belong to a library; what the
-- code asks of them is an interface.
pub mod Accepting
use trainer.Prelude.{
  ℕ, Bool, ◌&&◌, ◌||◌, not, none, some, Option, List, [], ◌∷◌, ◌++◌, Bytes, codes, byte_eq, ◌==◌,
  ltb, length, is_empty, if◌then◌else◌, Result, ok, err,
}
use trainer.Submission.{SubmissionRequest}

-- The members of `Json::Value` that the code calls.
pub record Json (J : Type 0) : Type 0 where
  pub is_object : J → Bool
  pub is_member : J → Bytes → Bool
  pub member : J → Bytes → J
  pub is_string : J → Bool
  pub as_string : J → Bytes

abbrev pub maximum_code_size : ℕ
maximum_code_size = 65536

abbrev pub required_fields : List Bytes
required_fields = codes "problemId" ∷ codes "language" ∷ codes "code" ∷ []

-- The tests behind the extraction of the fields.
unfoldable pub check_request : SubmissionRequest → Result Bytes SubmissionRequest
check_request request =
    if is_empty request.problem_id || ltb 128 (length request.problem_id)
    then err (codes "Unsupported problemId")
    else if not (request.language == codes "python") && not (request.language == codes "cpp")
    then err (codes "Unsupported language")
    else if is_empty request.code
    then err (codes "code must not be empty")
    else if ltb maximum_code_size (length request.code)
    then err (codes "code is too large")
    else ok request

module _ {J : Type 0} (library : Json J) where
  open library use {is_object, is_member, member, is_string, as_string}

  -- The loop over the fields: the first that is missing or is no string.
  unfoldable pub first_not_string : J → List Bytes → Option Bytes
  first_not_string json [] = none
  first_not_string json (field ∷ fields) =
      let rest = first_not_string json fields in
      if not (is_member json field) || not (is_string (member json field)) then some field else rest

  abbrev pub extracted : J → SubmissionRequest
  extracted json = record {
    problem_id = as_string (member json (codes "problemId"));
    language = as_string (member json (codes "language"));
    code = as_string (member json (codes "code"));
    user_id = none;
  }

  -- The message of a `ValidationError`, or the request.
  unfoldable pub validate_submission : J → Result Bytes SubmissionRequest
  unfolding first_not_string check_request
  validate_submission json =
      if not (is_object json)
      then err (codes "Request body must be a JSON object")
      else elim (first_not_string json required_fields) [
        | some field ↦ err (field ++ codes " must be a string")
        | none ↦ check_request (extracted json)
      ]
