-- ===== src/Postgres/Histories.antt =====
-- Histories of calls of `PostgreSQLSubmissionRepository`, each with what the server replies.
use trainer.Prelude.{
  ℕ, ◌≤◌, arith, ◌≡◌, refl, sym, ap, subst, ◌⊎◌, inl, inr, Option, none, some, List, [], ◌∷◌, Bytes,
  Result,
}
use trainer.Submission.{Verdict, SubmissionRequest, RepositoryError}
use trainer.Table.{Database, AuditEntry, IdsBelow-mono}
use trainer.Sqlite.{
  works, SubmissionQueueLimits, create as create_row, claim_next as claim_row,
  complete as complete_row, fail as fail_row, recover_running as recover_rows,
}
use trainer.Sqlite.Retry.{audit as audit_once, retry as retry_once}
use trainer.Sqlite.Calls.{
  Call as SqliteCall, creates, completes, fails_with, claims, recovers, retries, audits, step,
}
use trainer.Judge.{JudgeRequest, JudgeResult}
use trainer.Worker.{Services}
use trainer.Sqlite.Invariant.{Inv}
use trainer.Sqlite.Preservation.{step-Inv}
use trainer.Postgres.{
  Reply, LockedReplies, with_next_id, execute, create, complete, fail, claim_next, recover_running,
  recover_statement, retry, audit, audit_statement,
}
use trainer.Postgres.Agreement.{
  Agrees, all_work, finish-Agrees, create-Agrees, claim_next-Agrees, retry-Agrees,
}

-- The repository with what the server replies, and a judge that does not touch it.
abbrev pub postgres_services :
    SubmissionQueueLimits
    → LockedReplies
    → Reply
    → Reply
    → Bytes
    → (JudgeRequest → Option JudgeResult)
    → Services Database
postgres_services limits claiming completing failing now judge = record {
  claim_next = claim_next limits claiming;
  complete = complete completing now;
  fail = fail failing now;
  judge = λ request db. (judge request, db);
}

pub data ServerCall : Type 0 where
  asks_create : LockedReplies → Reply → Bytes → SubmissionRequest → ServerCall
  asks_complete : Reply → Bytes → ℕ → Verdict → Option Bytes → ServerCall
  asks_fail : Reply → Bytes → ℕ → Option Bytes → ServerCall
  asks_claim : LockedReplies → ServerCall
  asks_recover : Reply → ServerCall
  asks_retry : LockedReplies → Bytes → ℕ → ℕ → ServerCall
  asks_audit : Reply → AuditEntry → ServerCall

-- The database that a call leaves.
unfoldable pub serve : SubmissionQueueLimits → ServerCall → Database → Database
serve limits (asks_create r counting now request) db = (create limits r counting now request db).1
serve limits (asks_complete r now id verdict error_type) db =
    (complete r now id verdict error_type db).1
serve limits (asks_fail r now id error_type) db = (fail r now id error_type db).1
serve limits (asks_claim r) db = (claim_next limits r db).1
serve limits (asks_recover r) db = (recover_running r db).1
serve limits (asks_retry r now id admin) db = (retry limits r now id admin db).1
serve limits (asks_audit r entry) db = (audit r entry db).1

unfoldable pub serve_all : SubmissionQueueLimits → List ServerCall → Database → Database
unfolding serve
serve_all limits [] db = db
serve_all limits (c ∷ cs) db = serve_all limits cs (serve limits c db)

-- The same call of the SQLite repository, with statements that work.
abbrev pub as_sqlite : ServerCall → SqliteCall
as_sqlite (asks_create r counting now request) = creates works works now request
as_sqlite (asks_complete r now id verdict error_type) = completes works now id verdict error_type
as_sqlite (asks_fail r now id error_type) = fails_with works now id error_type
as_sqlite (asks_claim r) = claims works
as_sqlite (asks_recover r) = recovers works
as_sqlite (asks_retry r now id admin) = retries all_work now id admin
as_sqlite (asks_audit r entry) = audits works entry

module _ (limits : SubmissionQueueLimits) where
  -- Each call beside the same call of the SQLite repository whose statements work.
  pub record Refines (db : Database) : Type 0 where
    pub creates_alike :
        (r : LockedReplies) (counting : Reply) (now : Bytes) (request : SubmissionRequest)
        → Agrees
            (create limits r counting now request db)
            (create_row limits works works now request db)
            db
    pub completes_alike :
        (r : Reply) (now : Bytes) (id : ℕ) (verdict : Verdict) (error_type : Option Bytes)
        → Agrees
            (complete r now id verdict error_type db)
            (complete_row works now id verdict error_type db)
            db
    pub fails_alike :
        (r : Reply) (now : Bytes) (id : ℕ) (error_type : Option Bytes)
        → Agrees (fail r now id error_type db) (fail_row works now id error_type db) db
    pub claims_alike :
        (r : LockedReplies) → Agrees (claim_next limits r db) (claim_row limits works db) db
    pub recovers_alike : (r : Reply) → Agrees (recover_running r db) (recover_rows works db) db
    pub retries_alike :
        (r : LockedReplies) (now : Bytes) (id admin : ℕ)
        → Agrees (retry limits r now id admin db) (retry_once limits all_work now id admin db) db
    pub audits_alike :
        (r : Reply) (entry : AuditEntry) → Agrees (audit r entry db) (audit_once works entry db) db

  recover-Agrees :
      (r : Reply) (db : Database) → Agrees (recover_running r db) (recover_rows works db) db
  unfolding recover_running recover_rows recover_statement execute
  recover-Agrees none db = inr refl
  recover-Agrees (some e) db = inl ((_, refl), (db.next_id, omega arith, refl))

  audit-Agrees :
      (r : Reply) (entry : AuditEntry) (db : Database)
      → Agrees (audit r entry db) (audit_once works entry db) db
  unfolding audit audit_once audit_statement execute
  audit-Agrees none entry db = inr refl
  audit-Agrees (some e) entry db = inl ((_, refl), (db.next_id, omega arith, refl))

  pub complete-Agrees :
      (r : Reply) (now : Bytes) (id : ℕ) (verdict : Verdict) (error_type : Option Bytes)
      (db : Database)
      → Agrees
          (complete r now id verdict error_type db)
          (complete_row works now id verdict error_type db)
          db
  unfolding complete complete_row
  complete-Agrees r now id verdict error_type db = finish-Agrees _ r id _ db

  pub fail-Agrees :
      (r : Reply) (now : Bytes) (id : ℕ) (error_type : Option Bytes) (db : Database)
      → Agrees (fail r now id error_type db) (fail_row works now id error_type db) db
  unfolding fail fail_row
  fail-Agrees r now id error_type db = finish-Agrees _ r id _ db

  pub Agrees-left :
      {A : Type 0} (reply expected : Result RepositoryError A × Database) (db : Database)
      → Agrees reply expected db
      → ((n : ℕ) × (db.next_id ≤ n) × (reply.1 ≡ with_next_id n db)) ⊎ (reply.1 ≡ expected.1)
  Agrees-left reply expected db (inl (refused, same)) = inl same
  Agrees-left reply expected db (inr e) = inr (ap (λ p. p.1) e)

  -- A call changes nothing but the next id or leaves what the SQLite call leaves.
  pub serve_lem :
      (c : ServerCall) (db : Database)
      → ((n : ℕ) × (db.next_id ≤ n) × (serve limits c db ≡ with_next_id n db))
        ⊎ (serve limits c db ≡ step limits (as_sqlite c) db)
  unfolding serve step
  serve_lem (asks_create r counting now request) db =
      Agrees-left _ _ db (create-Agrees limits r counting now request db)
  serve_lem (asks_complete r now id verdict error_type) db =
      Agrees-left _ _ db (complete-Agrees r now id verdict error_type db)
  serve_lem (asks_fail r now id error_type) db =
      Agrees-left _ _ db (fail-Agrees r now id error_type db)
  serve_lem (asks_claim r) db = Agrees-left _ _ db (claim_next-Agrees limits r db)
  serve_lem (asks_recover r) db = Agrees-left _ _ db (recover-Agrees r db)
  serve_lem (asks_retry r now id admin) db =
      Agrees-left _ _ db (retry-Agrees limits r now id admin db)
  serve_lem (asks_audit r entry) db = Agrees-left _ _ db (audit-Agrees r entry db)

  pub with_next_id-Inv :
      (n : ℕ) (db : Database) → db.next_id ≤ n → Inv limits db → Inv limits (with_next_id n db)
  with_next_id-Inv n db le v = record {
    fresh = IdsBelow-mono db.next_id n db.submissions le v.fresh;
    active_bounded = v.active_bounded;
    user_bounded = v.user_bounded;
    running_bounded = v.running_bounded;
    checked = v.checked;
    retried_once = v.retried_once;
  }

  pub serve-Inv : (c : ServerCall) (db : Database) → Inv limits db → Inv limits (serve limits c db)
  serve-Inv c db v = elim (serve_lem c db) [
    | inl (n, le, e) ↦ subst (Inv limits) (sym e) (with_next_id-Inv n db le v)
    | inr e ↦ subst (Inv limits) (sym e) (step-Inv limits (as_sqlite c) db v)
  ]

  -- Every history of calls of the PostgreSQL repository, whatever the server replies, preserves the
  -- invariant of the SQLite repository, although a transaction that fails may skip ids.
  pub serve_all-Inv :
      (cs : List ServerCall) (db : Database) → Inv limits db → Inv limits (serve_all limits cs db)
  unfolding serve_all
  serve_all-Inv [] db v = v
  serve_all-Inv (c ∷ cs) db v = serve_all-Inv cs (serve limits c db) (serve-Inv c db v)
