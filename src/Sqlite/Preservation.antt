-- ===== src/Sqlite/Preservation.antt =====
-- `Inv` under the operations of `SQLiteSubmissionRepository` and under histories of calls.
use trainer.Prelude.{
  subst, ℕ, ◌≡◌, refl, true, Option, some, List, [], ◌∷◌, Bytes, arith, nat_eq, option_nat_eq,
  count_where, inl, inr, Bool-cases, Option-cases,
}
use trainer.Submission.{Verdict, SubmissionRequest, SubmissionRecord}
use trainer.Table.{
  Database, AuditEntry, active_row, active_row_of, running_row_of, retries_row, insert_row, find_id,
  All-update_where, count-update_where, count-update_where-le, update_where-IdsBelow, oldest_where,
  oldest_where-holds, find_id-oldest_where, find_id-id,
}
use trainer.Sqlite.{
  Outcome, works, invalid, fails, SubmissionQueueLimits, has_room, create, complete, fail,
  claimable, claim_next, requeue_row, running_row, recover_running,
}
use trainer.Sqlite.Retry.{RetryOutcomes, retried_row, may_retry, retry, audit}
use trainer.Sqlite.Retrying.{retried, retry_lem}
use trainer.Sqlite.Calls.{
  Call, creates, completes, fails_with, claims, claims_uncommitted, recovers, retries, audits, step,
  run,
}
use trainer.Sqlite.Invariant.{
  IsChecked, checked_failed, checked_queued, Inv, insert-Inv, finish_row-Inv, start-Inv,
}

module _ (limits : SubmissionQueueLimits) where
  create-Inv :
      (o counting : Outcome) (now : Bytes) (request : SubmissionRequest) (db : Database)
      → Inv limits db
      → Inv limits (create limits o counting now request db).1
  unfolding create
  create-Inv (invalid e) counting now request db v = v
  create-Inv (fails e) counting now request db v = v
  create-Inv works counting now request db v =
      elim (Bool-cases (has_room limits request.user_id db)) [
        | inl room ↦ rw room (insert-Inv limits _ db v room refl refl tt (λ id t. cc))
        | inr full ↦ rw full v
      ]

  pub complete-Inv :
      (o : Outcome) (now : Bytes) (id : ℕ) (verdict : Verdict) (error_type : Option Bytes)
      (db : Database)
      → Inv limits db
      → Inv limits (complete o now id verdict error_type db).1
  unfolding complete
  complete-Inv (invalid e) now id verdict error_type db v = v
  complete-Inv (fails e) now id verdict error_type db v = v
  complete-Inv works now id verdict error_type db v =
      finish_row-Inv limits id _ db v (λ x. (refl, refl, refl, refl)) (λ r c t. tt)

  pub fail-Inv :
      (o : Outcome) (now : Bytes) (id : ℕ) (error_type : Option Bytes) (db : Database)
      → Inv limits db
      → Inv limits (fail o now id error_type db).1
  unfolding fail
  fail-Inv (invalid e) now id error_type db v = v
  fail-Inv (fails e) now id error_type db v = v
  fail-Inv works now id error_type db v =
      finish_row-Inv limits id _ db v (λ x. (refl, refl, refl, refl))
        (λ r c t. checked_failed r.status r.verdict r.completed_at now c t)

  pub claim_next-Inv :
      (o : Outcome) (db : Database) → Inv limits db → Inv limits (claim_next limits o db).1
  unfolding claim_next claimable
  claim_next-Inv (invalid e) db v = v
  claim_next-Inv (fails e) db v = v
  claim_next-Inv works db v =
      elim (Option-cases (oldest_where (claimable limits db.submissions) db.submissions)) [
        | inl e ↦ rw (e, claim_next) v
        | inr (r, e) ↦
            rw (e, claim_next)
              (start-Inv limits r db v
                (find_id-oldest_where _ db.next_id db.submissions r v.fresh e)
                (oldest_where-holds _ db.submissions r e))
      ]

  recover_running-Inv :
      (o : Outcome) (db : Database) → Inv limits db → Inv limits (recover_running o db).1
  unfolding recover_running
  recover_running-Inv (invalid e) db v = v
  recover_running-Inv (fails e) db v = v
  recover_running-Inv works db v = record {
    fresh =
        update_where-IdsBelow running_row requeue_row (λ x. refl) db.next_id db.submissions v.fresh;
    active_bounded = omega (
      arith,
      v.active_bounded,
      count-update_where running_row active_row requeue_row (λ x t. ground arith) db.submissions,
    );
    user_bounded = λ user. omega (
      arith,
      v.user_bounded user,
      count-update_where running_row (active_row_of user) requeue_row (λ x t. ground arith)
          db.submissions,
    );
    running_bounded = λ user. omega (
      arith,
      v.running_bounded user,
      count-update_where-le running_row (running_row_of user) requeue_row (λ x t. refl)
          db.submissions,
    );
    checked =
        All-update_where IsChecked running_row requeue_row
          (λ r c t. checked_queued r.status r.verdict r.completed_at c t) db.submissions v.checked;
    retried_once = λ id. omega (
      arith,
      v.retried_once id,
      count-update_where running_row (retries_row id) requeue_row (λ x t. refl) db.submissions,
    );
  }

  retried-Inv :
      (now : Bytes) (id admin : ℕ) (original : SubmissionRecord) (db : Database)
      → Inv limits db
      → find_id id db.submissions ≡ some original
      → may_retry limits id original db ≡ true
      → Inv limits (retried now id admin original db)
  unfolding may_retry retried_row
  retried-Inv now id admin original db v found may = record {
    fresh = inserted.fresh;
    active_bounded = inserted.active_bounded;
    user_bounded = inserted.user_bounded;
    running_bounded = inserted.running_bounded;
    checked = inserted.checked;
    retried_once = inserted.retried_once;
  }
    where
      none_yet :
          (k : ℕ)
          → retries_row k (retried_row now db.next_id original) ≡ true
          → count_where (retries_row k) db.submissions ≡ 0
      none_yet k t =
          subst (λ j. count_where (retries_row j) db.submissions ≡ 0) {x = id}
            (ground (arith, find_id-id id db.submissions original found)) (ground arith)

      inserted : Inv limits (insert_row (retried_row now db.next_id original) db)
      inserted =
          insert-Inv limits (retried_row now db.next_id original) db v (ground arith) refl refl tt
            none_yet

  retry-Inv :
      (o : RetryOutcomes) (now : Bytes) (id admin : ℕ) (db : Database)
      → Inv limits db
      → Inv limits (retry limits o now id admin db).1
  retry-Inv o now id admin db v = elim (retry_lem limits now id admin db o) [
    | inl refused ↦ rw refused.1 v
    | inr (original, found, may, result, left) ↦
        rw left (retried-Inv now id admin original db v found may)
  ]

  audit-Inv :
      (o : Outcome) (entry : AuditEntry) (db : Database)
      → Inv limits db
      → Inv limits (audit o entry db).1
  unfolding audit
  audit-Inv (invalid e) entry db v = v
  audit-Inv (fails e) entry db v = v
  audit-Inv works entry db v = record {
    fresh = v.fresh;
    active_bounded = v.active_bounded;
    user_bounded = v.user_bounded;
    running_bounded = v.running_bounded;
    checked = v.checked;
    retried_once = v.retried_once;
  }

  pub step-Inv : (c : Call) (db : Database) → Inv limits db → Inv limits (step limits c db)
  unfolding step trainer.Sqlite.claim_uncommitted
  step-Inv (creates o counting now request) db v = create-Inv o counting now request db v
  step-Inv (completes o now id verdict error_type) db v =
      complete-Inv o now id verdict error_type db v
  step-Inv (fails_with o now id error_type) db v = fail-Inv o now id error_type db v
  step-Inv (claims o) db v = claim_next-Inv o db v
  step-Inv claims_uncommitted db v = v
  step-Inv (recovers o) db v = recover_running-Inv o db v
  step-Inv (retries o now id admin) db v = retry-Inv o now id admin db v
  step-Inv (audits o entry) db v = audit-Inv o entry db v

  -- Every history of calls, whatever their statements' outcomes, preserves the invariant: ids fall
  -- along the rows below the next id, the active and the running submissions stay within the limits
  -- of the queue and of each user, every row satisfies the table's CHECK constraint, and no
  -- submission is retried twice.
  pub run-Inv : (cs : List Call) (db : Database) → Inv limits db → Inv limits (run limits cs db)
  unfolding run
  run-Inv [] db v = v
  run-Inv (c ∷ cs) db v = run-Inv cs (step limits c db) (step-Inv c db v)
