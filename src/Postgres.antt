-- ===== src/Postgres.antt =====
-- `PostgreSQLSubmissionRepository` (backend/src/postgresql-submission-repository.cpp) and the
-- transactions of backend/src/postgresql-client.cpp. A statement that the server refuses answers
-- with a message and changes nothing; a transaction that does not commit is rolled back, but the ids
-- that it has drawn are not used again. The mutex of the connection and the advisory locks make the
-- calls take turns, so a call is one step.
pub mod Decoding
pub mod Agreement
pub mod Histories
pub mod Reads
pub mod Accounts
pub mod Administrator
use trainer.Prelude.{
  ℕ, ◌+◌, ◌++◌, Bool, true, false, not, leb, Option, none, some, ◌∷◌, Bytes, codes, if◌then◌else◌,
  Result, ok, err, count_where,
}
use trainer.Submission.{
  Verdict, SubmissionRequest, SubmissionRecord, RepositoryError, user_submission_limit, queue_full,
  plain_error, completed, failed,
}
use trainer.Submission.Columns.{Columns, columns}
use trainer.Table.{
  Database, AuditEntry, active_row_of, insert_row, oldest_where, update_where, update_id,
}
use trainer.Sqlite.{
  SubmissionQueueLimits, Stored, has_room, new_row, find_running, claimable, start_row, requeue_row,
  running_row,
}
use trainer.Sqlite.Retry.{retried_row, retry_row, retry_audit}
use Decoding.{record_of}

-- What the server says to one statement: it refuses with a message, or carries it out.
abbrev pub Reply : Type 0
Reply = Option Bytes

-- `Connection::execute`.
unfoldable pub execute : {S A : Type 0} → Reply → (S → A × S) → S → Result Bytes A × S
execute (some message) statement db = (err message, db)
execute none statement db = (ok (statement db).0, (statement db).1)

-- What the server says to the four commands of a locked statement.
pub record LockedReplies : Type 0 where
  pub begins : Bool
  pub locks : Bool
  pub statement : Reply
  pub commits : Bool
  -- How many ids a transaction that fails has drawn: a sequence is not rolled back.
  pub drawn : ℕ

abbrev pub with_next_id : ℕ → Database → Database
with_next_id n db = record db { next_id = n }

-- `Connection::execute_locked`; an empty `Result` says "No result".
unfoldable pub execute_locked :
    {A : Type 0} → LockedReplies → (Database → A × Database) → Database → Result Bytes A × Database
execute_locked r statement db =
    if not r.begins
    then (err (codes "No result"), db)
    else if not r.locks
    then (err (codes "No result"), db)
    else elim r.statement [
      | some message ↦ (err message, with_next_id (db.next_id + r.drawn) db)
      | none ↦
          if r.commits
          then (ok (statement db).0, (statement db).1)
          else (err (codes "No result"), with_next_id (db.next_id + r.drawn) db)
    ]

unfoldable pub failure : Bytes → Bytes → RepositoryError
failure operation message = plain_error (operation ++ (codes ": " ++ message))

-- INSERT ... SELECT ... WHERE ... RETURNING: no row, or the new one.
unfoldable pub insert_statement :
    SubmissionQueueLimits → Bytes → SubmissionRequest → Database → Option Columns × Database
unfolding has_room new_row insert_row
insert_statement limits now request db =
    if has_room limits request.user_id db
    then (some (columns (new_row now request db)), insert_row (new_row now request db) db)
    else (none, db)

-- The second statement of `create` and what it says of the refusal.
unfoldable pub count_refusal : SubmissionQueueLimits → Reply → Option ℕ → Database → RepositoryError
count_refusal limits (some message) user db = record {
  message = codes "Submission queue is full";
  code = queue_full;
}
count_refusal limits none user db =
    if leb limits.maximum_active_submissions_per_user
      (count_where (active_row_of user) db.submissions)
    then record {
      message = codes "Too many active submissions for this user";
      code = user_submission_limit;
    }
    else record { message = codes "Submission queue is full"; code = queue_full }

-- `create` behind its first statement.
unfoldable pub created :
    SubmissionQueueLimits → Reply → Option ℕ → Result Bytes (Option Columns) × Database → Stored
unfolding count_refusal failure
created limits counting user (err message, left) =
    (err (failure (codes "Could not create submission") message), left)
created limits counting user (ok (some row), left) = (record_of row, left)
created limits counting user (ok none, left) = (err (count_refusal limits counting user left), left)

unfoldable pub create :
    SubmissionQueueLimits → LockedReplies → Reply → Bytes → SubmissionRequest → Database → Stored
unfolding execute_locked insert_statement created
create limits r counting now request db =
    created limits counting request.user_id
      (execute_locked r (insert_statement limits now request) db)

-- UPDATE ... WHERE id = $n AND status = 'running' RETURNING.
unfoldable pub finish_statement :
    ℕ → (SubmissionRecord → SubmissionRecord) → Database → Option Columns × Database
unfolding find_running
finish_statement id f db = elim (find_running id db.submissions) [
  | none ↦ (none, db)
  | some r ↦ (some (columns (f r)), record db { submissions = update_id id f db.submissions })
]

-- The ends of `complete` and `fail`.
unfoldable pub finished : Bytes → Result Bytes (Option Columns) × Database → Stored
unfolding failure
finished operation (err message, left) = (err (failure operation message), left)
finished operation (ok none, left) =
    (err (plain_error (codes "Submission is missing or is not running")), left)
finished operation (ok (some row), left) = (record_of row, left)

unfoldable pub complete : Reply → Bytes → ℕ → Verdict → Option Bytes → Database → Stored
unfolding execute finish_statement finished
complete r now id verdict error_type db = finished (codes "Could not complete submission") (
    execute r
      (finish_statement id (λ x. record x {
        status = completed;
        verdict = some verdict;
        error_type = error_type;
        completed_at = some now;
      }))
      db)

unfoldable pub fail : Reply → Bytes → ℕ → Option Bytes → Database → Stored
unfolding execute finish_statement finished
fail r now id error_type db = finished (codes "Could not fail submission") (
    execute r
      (finish_statement id
        (λ x. record x { status = failed; error_type = error_type; completed_at = some now }))
      db)

-- UPDATE ... FROM candidate: the candidate is the first by id that may be taken.
unfoldable pub claim_statement : SubmissionQueueLimits → Database → Option Columns × Database
unfolding claimable
claim_statement limits db = elim (oldest_where (claimable limits db.submissions) db.submissions) [
  | none ↦ (none, db)
  | some r ↦ (
    some (columns (start_row r)),
    record db { submissions = update_id r.id start_row db.submissions },
  )
]

abbrev some_record :
    Result RepositoryError SubmissionRecord → Result RepositoryError (Option SubmissionRecord)
some_record (ok value) = ok (some value)
some_record (err error) = err error

-- `claim_next` behind its statement.
unfoldable pub claimed :
    Result Bytes (Option Columns) × Database
    → Result RepositoryError (Option SubmissionRecord) × Database
unfolding failure
claimed (err message, left) =
    (err (failure (codes "Could not claim queued submission") message), left)
claimed (ok none, left) = (ok none, left)
claimed (ok (some row), left) = (some_record (record_of row), left)

unfoldable pub claim_next :
    SubmissionQueueLimits
    → LockedReplies
    → Database
    → Result RepositoryError (Option SubmissionRecord) × Database
unfolding execute_locked claim_statement claimed
claim_next limits r db = claimed (execute_locked r (claim_statement limits) db)

-- UPDATE ... RETURNING id: as many rows as are met.
unfoldable pub recover_statement : Database → ℕ × Database
recover_statement db = (
  count_where running_row db.submissions,
  record db { submissions = update_where running_row requeue_row db.submissions },
)

unfoldable pub recover_running : Reply → Database → Result RepositoryError ℕ × Database
unfolding execute recover_statement failure
recover_running r db =
    let (answer, left) = execute r recover_statement db in
    elim answer [
      | err message ↦ (err (failure (codes "Could not recover running submissions") message), left)
      | ok count ↦ (ok count, left)
    ]

-- WITH retried AS (INSERT ...), audited AS (INSERT ...): one statement writes both rows.
unfoldable pub retry_statement :
    SubmissionQueueLimits → Bytes → ℕ → ℕ → Database → Option Columns × Database
unfolding retry_row retry_audit insert_row
retry_statement limits now id admin db = elim (retry_row limits now id db) [
  | none ↦ (none, db)
  | some row ↦ (
    some (columns row),
    record (insert_row row db) { audit_log = retry_audit admin id row.id ∷ db.audit_log },
  )
]

-- `retry` behind its statement.
unfoldable pub retried : Result Bytes (Option Columns) × Database → Stored
unfolding failure
retried (err message, left) = (err (failure (codes "Could not retry submission") message), left)
retried (ok none, left) =
    (err (plain_error (codes "Submission is not retryable or was already retried")), left)
retried (ok (some row), left) = (record_of row, left)

unfoldable pub retry : SubmissionQueueLimits → LockedReplies → Bytes → ℕ → ℕ → Database → Stored
unfolding execute_locked retry_statement retried
retry limits r now id admin db = retried (execute_locked r (retry_statement limits now id admin) db)

-- INSERT INTO admin_audit_log.
unfoldable pub audit_statement : AuditEntry → Database → Unit {0} × Database
audit_statement entry db = (tt, record db { audit_log = entry ∷ db.audit_log })

unfoldable pub audit : Reply → AuditEntry → Database → Result RepositoryError (Unit {0}) × Database
unfolding execute audit_statement failure
audit r entry db =
    let (answer, left) = execute r (audit_statement entry) db in
    elim answer [
      | err message ↦ (err (failure (codes "Could not write admin audit record") message), left)
      | ok u ↦ (ok u, left)
    ]
