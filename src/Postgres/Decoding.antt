-- ===== src/Postgres/Decoding.antt =====
-- The decoding of rows in backend/src/postgresql-submission-repository.cpp.
use trainer.Prelude.{
  ◌≡◌, arith, Option, none, some, Bytes, codes, byte_eq, ◌==◌, if◌then◌else◌, Result, ok, err,
}
use trainer.Submission.{
  Verdict, accepted, wrong_answer, runtime_error, time_limit_exceeded, SubmissionStatus, queued,
  running, completed, failed, SubmissionRecord, RepositoryError, plain_error,
}
use trainer.Submission.Columns.{Columns, parse_verdict, parse_status, read_record}

unfoldable pub verdict_of : Bytes → Option Verdict
verdict_of value =
    if value == codes "Accepted"
    then some accepted
    else if value == codes "Wrong Answer"
    then some wrong_answer
    else if value == codes "Runtime Error"
    then some runtime_error
    else if value == codes "Time Limit Exceeded"
    then some time_limit_exceeded
    else none

unfoldable pub status_of : Bytes → Option SubmissionStatus
status_of value =
    if value == codes "queued"
    then some queued
    else if value == codes "running"
    then some running
    else if value == codes "completed"
    then some completed
    else if value == codes "failed"
    then some failed
    else none

-- The `SubmissionRecord` that `record` returns at its end.
unfoldable pub record_with : Columns → SubmissionStatus → Option Verdict → SubmissionRecord
record_with row status verdict = record {
  id = row.id;
  problem_id = row.problem_id;
  language = row.language;
  source_code = row.source_code;
  status = status;
  verdict = verdict;
  created_at = row.created_at;
  completed_at = row.completed_at;
  user_id = row.user_id;
  error_type = row.error_type;
  retry_of = row.retry_of;
}

unfoldable pub record_of : Columns → Result RepositoryError SubmissionRecord
unfolding verdict_of status_of record_with
record_of row = elim (status_of row.status) [
  | none ↦ err (plain_error (codes "Database contains an unknown submission status"))
  | some status ↦ elim row.verdict [
    | none ↦ ok (record_with row status none)
    | some text ↦ elim (verdict_of text) [
      | none ↦ err (plain_error (codes "Database contains an unknown submission verdict"))
      | some verdict ↦ ok (record_with row status (some verdict))
    ]
  ]
]

-- Both repositories read a row as the same record, or refuse it with the same error.
pub record_of-read_record : (row : Columns) → record_of row ≡ read_record row
unfolding record_of read_record parse_status parse_verdict record_with verdict_of
record_of-read_record row = ground arith
