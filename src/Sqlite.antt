-- ===== src/Sqlite.antt =====
-- `SQLiteSubmissionRepository` (backend/src/sqlite-submission-repository.cpp). An operation takes
-- the outcome of each statement that it runs, the time that the engine's clock shows, and the
-- database, and returns its result with the database that it leaves.
pub mod Retry
pub mod Calls
pub mod Retrying
pub mod Admission
pub mod Claiming
pub mod Finishing
pub mod Invariant
pub mod Preservation
pub mod Finality
pub mod Reads
pub mod Ordering
pub mod Progress
pub mod Streaks
pub mod Groups
pub mod Earliest
pub mod Completed
use trainer.Prelude.{
  ℕ, zero, suc, Bool, true, false, ◌&&◌, ◌||◌, not, ◌++◌, ltb, leb, Option, none, some, List, [],
  ◌∷◌, Bytes, codes, decimal, if◌then◌else◌, Result, ok, err, count_where, nat_beq, option_nat_eq,
}
use trainer.Submission.{
  SubmissionStatus, queued, running, completed, failed, Verdict, SubmissionRequest,
  SubmissionRecord, RepositoryError, user_submission_limit, queue_full, plain_error, verdict_name,
  is_queued, is_running, is_runtime_error,
}
use trainer.Submission.Columns.{Columns, columns, read_record}
use trainer.Table.{
  Database, AuditEntry, active_row, active_row_of, running_row_of, retries_row, insert_row,
  oldest_where, find_id, update_where, update_id,
}

-- How a statement went: `invalid` if it could not be prepared, `fails` if its step returned an
-- error, each with the engine's message. A statement that fails changes nothing.
pub data Outcome : Type 0 where
  works : Outcome
  invalid fails : Bytes → Outcome

-- backend/include/algorithm-trainer/sqlite-submission-repository.h
pub record SubmissionQueueLimits : Type 0 where
  pub maximum_active_submissions : ℕ
  pub maximum_active_submissions_per_user : ℕ
  pub maximum_running_submissions_per_user : ℕ

abbrev pub Stored : Type 0
Stored = Result RepositoryError SubmissionRecord × Database

unfoldable pub database_error : Bytes → Bytes → RepositoryError
database_error operation message = plain_error (operation ++ (codes ": " ++ message))

-- The two sub-selects of the INSERT statements.
unfoldable pub has_room : SubmissionQueueLimits → Option ℕ → Database → Bool
has_room limits user db =
    ltb (count_where active_row db.submissions) limits.maximum_active_submissions
    && ltb (count_where (active_row_of user) db.submissions)
        limits.maximum_active_submissions_per_user

unfoldable pub new_row : Bytes → SubmissionRequest → Database → SubmissionRecord
new_row now request db = record {
  id = db.next_id;
  problem_id = request.problem_id;
  language = request.language;
  source_code = request.code;
  status = queued;
  verdict = none;
  created_at = now;
  completed_at = none;
  user_id = request.user_id;
  error_type = none;
  retry_of = none;
}

-- Why the INSERT returned no row: a second statement counts the user's active submissions.
unfoldable pub refusal : SubmissionQueueLimits → Outcome → Option ℕ → Database → RepositoryError
refusal limits (invalid e) user db = plain_error e
refusal limits (fails e) user db = record {
  message = codes "Submission queue is full";
  code = queue_full;
}
refusal limits works user db =
    if leb limits.maximum_active_submissions_per_user
      (count_where (active_row_of user) db.submissions)
    then record {
      message = codes "Too many active submissions for this user";
      code = user_submission_limit;
    }
    else record { message = codes "Submission queue is full"; code = queue_full }

unfoldable pub create :
    SubmissionQueueLimits → Outcome → Outcome → Bytes → SubmissionRequest → Database → Stored
unfolding has_room new_row refusal database_error insert_row
create limits (invalid e) counting now request db = (err (plain_error e), db)
create limits (fails e) counting now request db =
    (err (database_error (codes "Could not create submission") e), db)
create limits works counting now request db =
    if has_room limits request.user_id db
    then (read_record (columns (new_row now request db)), insert_row (new_row now request db) db)
    else (err (refusal limits counting request.user_id db), db)

-- WHERE id = ? AND status = 'running'
unfoldable pub find_running : ℕ → List SubmissionRecord → Option SubmissionRecord
find_running id rows = elim (find_id id rows) [
  | none ↦ none
  | some r ↦ if is_running r.status then some r else none
]

not_running : RepositoryError
not_running = plain_error (codes "Submission is missing or is not running")

-- UPDATE submissions ... WHERE id = ? AND status = 'running' RETURNING ...
unfoldable pub finish_row : ℕ → (SubmissionRecord → SubmissionRecord) → Database → Stored
unfolding find_running not_running
finish_row id f db = elim (find_running id db.submissions) [
  | none ↦ (err not_running, db)
  | some r ↦
      (read_record (columns (f r)), record db { submissions = update_id id f db.submissions })
]

unfoldable pub complete : Outcome → Bytes → ℕ → Verdict → Option Bytes → Database → Stored
unfolding finish_row
complete (invalid e) now id verdict error_type db = (err (plain_error e), db)
complete (fails e) now id verdict error_type db = (err not_running, db)
complete works now id verdict error_type db =
    finish_row id
      (λ r. record r {
        status = completed;
        verdict = some verdict;
        error_type = error_type;
        completed_at = some now;
      })
      db

unfoldable pub fail : Outcome → Bytes → ℕ → Option Bytes → Database → Stored
unfolding finish_row
fail (invalid e) now id error_type db = (err (plain_error e), db)
fail (fails e) now id error_type db = (err not_running, db)
fail works now id error_type db =
    finish_row id
      (λ r. record r { status = failed; error_type = error_type; completed_at = some now }) db

-- The rows that a worker may take: queued, while the user runs fewer than the limit.
unfoldable pub claimable : SubmissionQueueLimits → List SubmissionRecord → SubmissionRecord → Bool
claimable limits rows r =
    is_queued r.status
    && ltb (count_where (running_row_of r.user_id) rows) limits.maximum_running_submissions_per_user

abbrev pub start_row : SubmissionRecord → SubmissionRecord
start_row r = record r { status = running }

abbrev found :
    Result RepositoryError SubmissionRecord → Result RepositoryError (Option SubmissionRecord)
found (ok r) = ok (some r)
found (err e) = err e

unfoldable pub claim_next :
    SubmissionQueueLimits
    → Outcome
    → Database
    → Result RepositoryError (Option SubmissionRecord) × Database
unfolding claimable database_error
claim_next limits (invalid e) db = (err (plain_error e), db)
claim_next limits (fails e) db =
    (err (database_error (codes "Could not claim queued submission") e), db)
claim_next limits works db = elim (oldest_where (claimable limits db.submissions) db.submissions) [
  | none ↦ (ok none, db)
  | some r ↦ (
    found (read_record (columns (start_row r))),
    record db { submissions = update_id r.id start_row db.submissions },
  )
]

-- `claim_next` where the row is returned and the commit that follows in the ignored
-- `sqlite3_finalize` fails: the answer stands, and the database is as before.
unfoldable pub claim_uncommitted :
    SubmissionQueueLimits → Database → Result RepositoryError (Option SubmissionRecord) × Database
unfolding claim_next
claim_uncommitted limits db = ((claim_next limits works db).0, db)

abbrev pub requeue_row : SubmissionRecord → SubmissionRecord
requeue_row r = record r { status = queued }

abbrev pub running_row : SubmissionRecord → Bool
running_row r = is_running r.status

-- The result is `sqlite3_changes`: how many rows the update met.
unfoldable pub recover_running : Outcome → Database → Result RepositoryError ℕ × Database
unfolding database_error
recover_running (invalid e) db = (err (plain_error e), db)
recover_running (fails e) db =
    (err (database_error (codes "Could not recover running submissions") e), db)
recover_running works db = (
  ok (count_where running_row db.submissions),
  record db { submissions = update_where running_row requeue_row db.submissions },
)
