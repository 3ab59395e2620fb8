-- ===== src/Sqlite/Calls.antt =====
-- Histories of calls of `SQLiteSubmissionRepository` that may change the database, each with the
-- outcomes of its statements (backend/include/algorithm-trainer/submission-repository.h).
use trainer.Prelude.{ℕ, Option, List, [], ◌∷◌, Bytes}
use trainer.Submission.{Verdict, SubmissionRequest}
use trainer.Table.{Database, AuditEntry}
use trainer.Sqlite.{
  Outcome, SubmissionQueueLimits, create, complete, fail, claim_next, claim_uncommitted,
  recover_running,
}
use trainer.Sqlite.Retry.{RetryOutcomes, retry, audit}

pub data Call : Type 0 where
  creates : Outcome → Outcome → Bytes → SubmissionRequest → Call
  completes : Outcome → Bytes → ℕ → Verdict → Option Bytes → Call
  fails_with : Outcome → Bytes → ℕ → Option Bytes → Call
  claims : Outcome → Call
  claims_uncommitted : Call
  recovers : Outcome → Call
  retries : RetryOutcomes → Bytes → ℕ → ℕ → Call
  audits : Outcome → AuditEntry → Call

-- The database that a call leaves.
unfoldable pub step : SubmissionQueueLimits → Call → Database → Database
step limits (creates o counting now request) db = (create limits o counting now request db).1
step limits (completes o now id verdict error_type) db = (complete o now id verdict error_type db).1
step limits (fails_with o now id error_type) db = (fail o now id error_type db).1
step limits (claims o) db = (claim_next limits o db).1
step limits claims_uncommitted db = (claim_uncommitted limits db).1
step limits (recovers o) db = (recover_running o db).1
step limits (retries o now id admin) db = (retry limits o now id admin db).1
step limits (audits o entry) db = (audit o entry db).1

unfoldable pub run : SubmissionQueueLimits → List Call → Database → Database
run limits [] db = db
run limits (c ∷ cs) db = run limits cs (step limits c db)

abbrev pub empty : Database
empty = record { submissions = []; next_id = 1; audit_log = [] }
