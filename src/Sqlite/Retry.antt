-- ===== src/Sqlite/Retry.antt =====
-- `SQLiteSubmissionRepository::retry` and `::audit`
-- (backend/src/sqlite-submission-repository.cpp). `retry` is one transaction of several statements; it
-- is modelled while no other thread uses the connection, on which the transaction is open.
use trainer.Prelude.{
  ℕ, Bool, true, false, ◌&&◌, ◌||◌, ◌++◌, Option, none, some, ◌∷◌, Bytes, codes, decimal,
  if◌then◌else◌, Result, ok, err, count_where, nat_beq,
}
use trainer.Submission.{
  SubmissionStatus, queued, failed, SubmissionRecord, RepositoryError, plain_error,
  is_runtime_error,
}
use trainer.Submission.Columns.{columns, read_record}
use trainer.Table.{Database, AuditEntry, retries_row, insert_row, find_id}
use trainer.Sqlite.{
  Outcome, works, invalid, fails, SubmissionQueueLimits, Stored, database_error, has_room,
}

-- The outcomes of the statements of one `retry`; `begin` and `commit` carry the message of a
-- failure.
pub record RetryOutcomes : Type 0 where
  pub begin : Option Bytes
  pub insertion : Outcome
  pub auditing : Outcome
  pub commit : Option Bytes

abbrev pub is_failed : SubmissionStatus → Bool
is_failed failed = true
is_failed _ = false

unfoldable pub retried_row : Bytes → ℕ → SubmissionRecord → SubmissionRecord
retried_row now id original = record {
  id = id;
  problem_id = original.problem_id;
  language = original.language;
  source_code = original.source_code;
  status = queued;
  verdict = none;
  created_at = now;
  completed_at = none;
  user_id = original.user_id;
  error_type = none;
  retry_of = some original.id;
}

-- The WHERE clause of the INSERT ... SELECT of `retry`.
unfoldable pub may_retry : SubmissionQueueLimits → ℕ → SubmissionRecord → Database → Bool
may_retry limits id original db =
    (is_failed original.status || is_runtime_error original.verdict)
    && (nat_beq (count_where (retries_row id) db.submissions) 0
        && has_room limits original.user_id db)

-- The row that the statement inserts, if there is one.
unfoldable pub retry_row : SubmissionQueueLimits → Bytes → ℕ → Database → Option SubmissionRecord
unfolding may_retry retried_row
retry_row limits now id db = elim (find_id id db.submissions) [
  | none ↦ none
  | some original ↦
      if may_retry limits id original db then some (retried_row now db.next_id original) else none
]

unfoldable pub retry_audit : ℕ → ℕ → ℕ → AuditEntry
retry_audit admin id new_id = record {
  admin_user_id = admin;
  action = codes "submission.retry";
  entity_type = codes "submission";
  entity_id = decimal id;
  details_json = codes "{\"retrySubmissionId\":" ++ (decimal new_id ++ codes "}");
}

execute_error : Bytes → RepositoryError
execute_error message = plain_error (codes "SQLite operation failed: " ++ message)

-- From the audit statement on: the row is inserted, and every failure rolls it back.
retry_commit : RetryOutcomes → ℕ → ℕ → SubmissionRecord → SubmissionRecord → Database → Stored
retry_commit outcomes admin id row retried db = elim outcomes.auditing [
  | invalid e ↦ (err (plain_error e), db)
  | fails e ↦ (err (database_error (codes "Could not audit submission retry") e), db)
  | works ↦ elim outcomes.commit [
    | some e ↦ (err (execute_error e), db)
    | none ↦ (
      ok retried,
      record (insert_row row db) { audit_log = retry_audit admin id retried.id ∷ db.audit_log },
    )
  ]
]

unfoldable pub retry_insert : RetryOutcomes → ℕ → ℕ → Database → Option SubmissionRecord → Stored
unfolding retry_commit execute_error insert_row database_error retry_audit
retry_insert outcomes admin id db none =
    (err (plain_error (codes "Submission is not retryable or was already retried")), db)
retry_insert outcomes admin id db (some row) = elim (read_record (columns row)) [
  | err e ↦ (err e, db)
  | ok retried ↦ retry_commit outcomes admin id row retried db
]

unfoldable pub retry : SubmissionQueueLimits → RetryOutcomes → Bytes → ℕ → ℕ → Database → Stored
unfolding retry_commit retry_insert execute_error insert_row database_error retry_audit
retry limits outcomes now id admin db = elim outcomes.begin [
  | some e ↦ (err (execute_error e), db)
  | none ↦ elim outcomes.insertion [
    | invalid e ↦ (err (plain_error e), db)
    | fails e ↦ (err (plain_error (codes "Submission is not retryable or was already retried")), db)
    | works ↦ retry_insert outcomes admin id db (retry_row limits now id db)
  ]
]

unfoldable pub audit :
    Outcome → AuditEntry → Database → Result RepositoryError (Unit {0}) × Database
unfolding database_error
audit (invalid e) entry db = (err (plain_error e), db)
audit (fails e) entry db = (err (database_error (codes "Could not write admin audit record") e), db)
audit works entry db = (ok tt, record db { audit_log = entry ∷ db.audit_log })
