-- ===== src/Worker/Settling.antt =====
-- What a worker leaves of the submission that it has taken, on the SQLite repository.
use trainer.Prelude.{ℕ, ◌≡◌, refl, inl, inr, true, Option, none, some, Bytes, codes, arith, ok}
use trainer.Submission.{Verdict, runtime_error, completed, failed, SubmissionRecord, is_running}
use trainer.Judge.{JudgeRequest, JudgeResult, judged, crashed, not_judged}
use trainer.Table.{Database, find_id, update_id, find_id-update_id, find_id-id}
use trainer.Sqlite.{
  Outcome, works, fails, SubmissionQueueLimits, finish_row, complete, fail, claim_next,
}
use trainer.Sqlite.Finishing.{finish_row_lem}
use trainer.Worker.{Services, complete_or_fail, settle}

-- The repository with the outcomes of its statements, and a judge that does not touch it.
abbrev pub sqlite_services :
    SubmissionQueueLimits
    → Outcome
    → Outcome
    → Outcome
    → Bytes
    → (JudgeRequest → Option JudgeResult)
    → Services Database
sqlite_services limits claiming completing failing now judge = record {
  claim_next = claim_next limits claiming;
  complete = complete completing now;
  fail = fail failing now;
  judge = λ request db. (judge request, db);
}

abbrev pub completed_row : Bytes → Verdict → Option Bytes → SubmissionRecord → SubmissionRecord
completed_row now verdict error_type r = record r {
  status = completed;
  verdict = some verdict;
  error_type = error_type;
  completed_at = some now;
}

abbrev pub failed_row : Bytes → Bytes → SubmissionRecord → SubmissionRecord
failed_row now reason r = record r {
  status = failed;
  error_type = some reason;
  completed_at = some now;
}

-- The row that a judging ends in.
abbrev pub settled_row : Bytes → Option JudgeResult → SubmissionRecord → SubmissionRecord
settled_row now none r = failed_row now (codes "Worker Error") r
settled_row now (some (not_judged message)) r = failed_row now (codes "Sandbox Error") r
settled_row now (some (crashed type)) r = completed_row now runtime_error (some type) r
settled_row now (some (judged verdict)) r = completed_row now verdict none r

module _ (id : ℕ) (r : SubmissionRecord) (db : Database)
    (stored : find_id id db.submissions ≡ some r) (busy : is_running r.status ≡ true) where
  finish_row_running :
      (f : SubmissionRecord → SubmissionRecord)
      → ((finish_row id f db).0 ≡ ok (f r))
        × ((finish_row id f db).1 ≡ record db { submissions = update_id id f db.submissions })
  finish_row_running f = elim (finish_row_lem id f db) [
    | inl (refused, same, idle) ↦ absurd (cc (idle r stored, busy))
    | inr (x, found, t, result, left) ↦ (ground (arith, stored, found, result), left)
  ]

  replaced :
      (f : SubmissionRecord → SubmissionRecord)
      → ((x : SubmissionRecord) → (f x).id ≡ x.id)
      → find_id id (finish_row id f db).1.submissions ≡ some (f r)
  replaced f keeps = ground (
    arith,
    (finish_row_running f).1,
    find_id-update_id id f keeps id db.submissions,
    stored,
    find_id-id id db.submissions r stored,
  )

  module _ (limits : SubmissionQueueLimits) (now : Bytes)
      (judge : JudgeRequest → Option JudgeResult) where
    -- What the worker does with the result, on a repository whose statements have these outcomes.
    abbrev pub settled : Outcome → Outcome → Option JudgeResult → Database
    settled completing failing result =
        settle (sqlite_services limits works completing failing now judge) id result db

    -- The database after the λ `complete` of the worker.
    abbrev pub completed_or_failed : Outcome → Outcome → Verdict → Option Bytes → Database
    completed_or_failed completing failing verdict error_type =
        complete_or_fail (sqlite_services limits works completing failing now judge) id verdict
          error_type db

    completes :
        (failing : Outcome) (verdict : Verdict) (error_type : Option Bytes)
        → completed_or_failed works failing verdict error_type
          ≡ (finish_row id (completed_row now verdict error_type) db).1
    unfolding complete_or_fail complete
    completes failing verdict error_type =
        ground (arith, (finish_row_running (completed_row now verdict error_type)).0)

    -- The row that the worker leaves, and no other row is touched.
    pub settle-update_id :
        (result : Option JudgeResult)
        → settled works works result
          ≡ record db { submissions = update_id id (settled_row now result) db.submissions }
    unfolding settle fail
    settle-update_id none = (finish_row_running _).1
    settle-update_id (some (not_judged message)) = (finish_row_running _).1
    settle-update_id (some (crashed type)) =
        rw (completes works runtime_error (some type)) ((finish_row_running _).1)
    settle-update_id (some (judged verdict)) =
        rw (completes works verdict none) ((finish_row_running _).1)

    -- If the submission is stored and running and the statements work, it ends as the judging says: completed with the verdict, completed with
    -- Runtime Error and its type, or failed with Sandbox Error or Worker Error.
    pub settle_lem :
        (result : Option JudgeResult)
        → find_id id (settled works works result).submissions ≡ some (settled_row now result r)
    unfolding settle fail
    settle_lem none = replaced _ (λ x. refl)
    settle_lem (some (not_judged message)) = replaced _ (λ x. refl)
    settle_lem (some (crashed type)) =
        rw (completes works runtime_error (some type)) (replaced _ (λ x. refl))
    settle_lem (some (judged verdict)) = rw (completes works verdict none) (replaced _ (λ x. refl))

    -- If the submission is stored and running, the verdict cannot be written and a failure can, the
    -- submission ends as failed with Result Persistence Error.
    pub settle_persistence :
        (e : Bytes) (verdict : Verdict)
        → find_id id (settled (fails e) works (some (judged verdict))).submissions
          ≡ some (failed_row now (codes "Result Persistence Error") r)
    unfolding settle complete_or_fail complete fail
    settle_persistence e verdict = replaced _ (λ x. refl)

    -- If neither the verdict nor a failure can be written, the database is unchanged: a submission
    -- that is stored and running stays so.
    pub settle_stuck :
        (e f : Bytes) (result : Option JudgeResult) → settled (fails e) (fails f) result ≡ db
    unfolding settle complete_or_fail complete fail
    settle_stuck e f none = refl
    settle_stuck e f (some (not_judged message)) = refl
    settle_stuck e f (some (crashed type)) = refl
    settle_stuck e f (some (judged verdict)) = refl
