-- ===== src/Submission.antt =====
-- The data of a submission: backend/include/algorithm-trainer/submission.h, judge.h,
-- submission-record.h, submission-repository.h, and the names that
-- backend/src/submission-record.cpp and backend/src/judge.cpp print.
-- Time stamps are the texts that the database writes; ids are not negative.
pub mod Columns
pub mod Names
use trainer.Prelude.{ℕ, Bool, true, false, Option, some, Bytes, codes}

pub data Verdict : Type 0 where
  accepted wrong_answer runtime_error time_limit_exceeded : Verdict

pub data SubmissionStatus : Type 0 where
  queued running completed failed : SubmissionStatus

pub record SubmissionRequest : Type 0 where
  pub problem_id : Bytes
  pub language : Bytes
  pub code : Bytes
  pub user_id : Option ℕ

pub record SubmissionRecord : Type 0 where
  pub id : ℕ
  pub problem_id : Bytes
  pub language : Bytes
  pub source_code : Bytes
  pub status : SubmissionStatus
  pub verdict : Option Verdict
  pub created_at : Bytes
  pub completed_at : Option Bytes
  pub user_id : Option ℕ
  pub error_type : Option Bytes
  pub retry_of : Option ℕ

pub data RepositoryErrorCode : Type 0 where
  internal user_submission_limit queue_full : RepositoryErrorCode

pub record RepositoryError : Type 0 where
  pub message : Bytes
  pub code : RepositoryErrorCode

-- `RepositoryError{message}`: the code is `internal` where none is given.
abbrev pub plain_error : Bytes → RepositoryError
plain_error message = record { message = message; code = internal }

unfoldable pub verdict_name : Verdict → Bytes
verdict_name accepted = codes "Accepted"
verdict_name wrong_answer = codes "Wrong Answer"
verdict_name runtime_error = codes "Runtime Error"
verdict_name time_limit_exceeded = codes "Time Limit Exceeded"

unfoldable pub submission_status_name : SubmissionStatus → Bytes
submission_status_name queued = codes "Queued"
submission_status_name running = codes "Running"
submission_status_name completed = codes "Completed"
submission_status_name failed = codes "Failed"

abbrev pub is_queued : SubmissionStatus → Bool
is_queued queued = true
is_queued _ = false

abbrev pub is_running : SubmissionStatus → Bool
is_running running = true
is_running _ = false

-- `status IN ('queued', 'running')`
abbrev pub is_active : SubmissionStatus → Bool
is_active queued = true
is_active running = true
is_active completed = false
is_active failed = false

abbrev pub is_accepted : Option Verdict → Bool
is_accepted (some accepted) = true
is_accepted _ = false

abbrev pub is_runtime_error : Option Verdict → Bool
is_runtime_error (some runtime_error) = true
is_runtime_error _ = false
