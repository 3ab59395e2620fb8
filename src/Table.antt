-- ===== src/Table.antt =====
-- The tables behind the submission repositories, and what the SQL statements of
-- backend/src/sqlite-submission-repository.cpp and backend/src/postgresql-submission-repository.cpp
-- ask of them: counts, the oldest row with a property, updates by id. A table has no order; here
-- its rows stand newest first. Ids come from AUTOINCREMENT: none is given out twice.
mod Rows
mod Keys
mod Counts
mod Oldest
mod Selecting
pub use Keys.*
pub use Counts.*
pub use Oldest.*
pub use Selecting.*
unfoldable pub use Rows.*
use trainer.Prelude.{
  ℕ, suc, Bool, ◌&&◌, Option, List, ◌∷◌, Bytes, nat_beq, option_nat_eq, ◌==◌, count_where,
}
use trainer.Submission.{SubmissionRecord, is_active, is_running}

pub record AuditEntry : Type 0 where
  pub admin_user_id : ℕ
  pub action : Bytes
  pub entity_type : Bytes
  pub entity_id : Bytes
  pub details_json : Bytes

pub record Database : Type 0 where
  pub submissions : List SubmissionRecord
  pub next_id : ℕ
  pub audit_log : List AuditEntry

-- `status IN ('queued', 'running')`
abbrev pub active_row : SubmissionRecord → Bool
active_row r = is_active r.status

-- `... AND user_id IS ?`
abbrev pub active_row_of : Option ℕ → SubmissionRecord → Bool
active_row_of user r = is_active r.status && (r.user_id == user)

abbrev pub running_row_of : Option ℕ → SubmissionRecord → Bool
running_row_of user r = is_running r.status && (r.user_id == user)

abbrev pub retries_row : ℕ → SubmissionRecord → Bool
retries_row id r = option_nat_eq.same r.retry_of (Option.some id)

-- A row with a fresh id.
unfoldable pub insert_row : SubmissionRecord → Database → Database
insert_row r db = record db { submissions = r ∷ db.submissions; next_id = suc db.next_id }
