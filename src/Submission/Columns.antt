-- ===== src/Submission/Columns.antt =====
-- Rows as the database hands them over, and their decoding: `parse_verdict`, `parse_status` and
-- `read_record` of backend/src/sqlite-submission-repository.cpp.
use trainer.Prelude.{
  ℕ, Option, none, some, Bytes, codes, byte_eq, ◌==◌, if◌then◌else◌, Result, ok, err,
}
use trainer.Submission.{
  Verdict, accepted, wrong_answer, runtime_error, time_limit_exceeded, SubmissionStatus, queued,
  running, completed, failed, SubmissionRecord, RepositoryError, plain_error, verdict_name,
}

-- The columns that the statements return: `returned_columns`.
pub record Columns : Type 0 where
  pub id : ℕ
  pub problem_id : Bytes
  pub language : Bytes
  pub source_code : Bytes
  pub status : Bytes
  pub verdict : Option Bytes
  pub created_at : Bytes
  pub completed_at : Option Bytes
  pub user_id : Option ℕ
  pub error_type : Option Bytes
  pub retry_of : Option ℕ

unfoldable pub parse_verdict : Bytes → Option Verdict
parse_verdict value =
    if value == codes "Accepted"
    then some accepted
    else if value == codes "Wrong Answer"
    then some wrong_answer
    else if value == codes "Runtime Error"
    then some runtime_error
    else if value == codes "Time Limit Exceeded"
    then some time_limit_exceeded
    else none

unfoldable pub parse_status : Bytes → Option SubmissionStatus
parse_status value =
    if value == codes "queued"
    then some queued
    else if value == codes "running"
    then some running
    else if value == codes "completed"
    then some completed
    else if value == codes "failed"
    then some failed
    else none

-- A verdict column that is not NULL has to be one of the four names.
read_verdict : Option Bytes → Result RepositoryError (Option Verdict)
read_verdict none = ok none
read_verdict (some text) = elim (parse_verdict text) [
  | none ↦ err (plain_error (codes "Database contains an unknown submission verdict"))
  | some v ↦ ok (some v)
]

with_verdict :
    Columns
    → SubmissionStatus
    → Result RepositoryError (Option Verdict)
    → Result RepositoryError SubmissionRecord
with_verdict row status (err e) = err e
with_verdict row status (ok verdict) = ok (record {
  id = row.id;
  problem_id = row.problem_id;
  language = row.language;
  source_code = row.source_code;
  status = status;
  verdict = verdict;
  created_at = row.created_at;
  completed_at = row.completed_at;
  user_id = row.user_id;
  error_type = row.error_type;
  retry_of = row.retry_of;
})

unfoldable pub read_record : Columns → Result RepositoryError SubmissionRecord
unfolding read_verdict with_verdict
read_record row = elim (parse_status row.status) [
  | none ↦ err (plain_error (codes "Database contains an unknown submission status"))
  | some status ↦ with_verdict row status (read_verdict row.verdict)
]

-- The literals that the SQL statements store in the column `status`.
unfoldable pub stored_status : SubmissionStatus → Bytes
stored_status queued = codes "queued"
stored_status running = codes "running"
stored_status completed = codes "completed"
stored_status failed = codes "failed"

stored_verdict : Option Verdict → Option Bytes
stored_verdict none = none
stored_verdict (some v) = some (verdict_name v)

-- The text that the database holds of a row.
unfoldable pub columns : SubmissionRecord → Columns
unfolding stored_verdict
columns r = record {
  id = r.id;
  problem_id = r.problem_id;
  language = r.language;
  source_code = r.source_code;
  status = stored_status r.status;
  verdict = stored_verdict r.verdict;
  created_at = r.created_at;
  completed_at = r.completed_at;
  user_id = r.user_id;
  error_type = r.error_type;
  retry_of = r.retry_of;
}
