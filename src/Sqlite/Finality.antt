-- ===== src/Sqlite/Finality.antt =====
-- Finished submissions under the calls of `SQLiteSubmissionRepository`.
use trainer.Prelude.{
  ℕ, ◌≡◌, ◌≢◌, refl, subst, ◌∙◌, inl, inr, true, false, Bool-cases, Option, some, List, [], ◌∷◌,
  Bytes, arith,
}
use trainer.Submission.{Verdict, SubmissionRequest, SubmissionRecord, is_active, is_running}
use trainer.Table.{
  Database, AuditEntry, IdsBelow, insert_row, find_id, find_id-lt, find_id-update_id_ne,
  find_id-update_where,
}
use trainer.Sqlite.{
  Outcome, works, invalid, fails, SubmissionQueueLimits, has_room, create, finish_row, complete,
  fail, claimable, claim_next, requeue_row, running_row, recover_running,
}
use trainer.Sqlite.Retry.{RetryOutcomes, retried_row, retry, audit}
use trainer.Sqlite.Claiming.{Claimed, claim_next_lem}
use trainer.Sqlite.Finishing.{finish_row_lem}
use trainer.Sqlite.Retrying.{retry_lem}
use trainer.Sqlite.Calls.{
  Call, creates, completes, fails_with, claims, claims_uncommitted, recovers, retries, audits, step,
  run,
}
use trainer.Sqlite.Invariant.{Inv}
use trainer.Sqlite.Preservation.{step-Inv}

-- The row `r` is stored under its id, and is completed or failed.
pub record Finished (id : ℕ) (r : SubmissionRecord) (db : Database) : Type 0 where
  pub stored : find_id id db.submissions ≡ some r
  pub ended : is_active r.status ≡ false

busy_is_active : (x : SubmissionRecord) → is_running x.status ≡ true → is_active x.status ≡ true
busy_is_active x h = ground arith

claimable-is_active :
    (limits : SubmissionQueueLimits) (rows : List SubmissionRecord) (x : SubmissionRecord)
    → claimable limits rows x ≡ true
    → is_active x.status ≡ true
unfolding claimable
claimable-is_active limits rows x h = ground arith

module _ (id : ℕ) (r : SubmissionRecord) where
  insert-Finished :
      (row : SubmissionRecord) (db : Database)
      → IdsBelow db.next_id db.submissions
      → row.id ≡ db.next_id
      → Finished id r db
      → Finished id r (insert_row row db)
  unfolding insert_row find_id
  insert-Finished row db b e h =
      ground (arith, find_id-lt id db.next_id db.submissions r b h.stored)

  finish_row-Finished :
      (k : ℕ) (f : SubmissionRecord → SubmissionRecord) (db : Database)
      → ((x : SubmissionRecord) → (f x).id ≡ x.id)
      → Finished id r db
      → Finished id r (finish_row k f db).1
  finish_row-Finished k f db keeps h = elim (finish_row_lem k f db) [
    | inl (refused, same, idle) ↦ rw same h
    | inr (x, found, busy, result, left) ↦ rw left (record {
      stored = rw (find_id-update_id_ne k f keeps id db.submissions (other x found busy)) h.stored;
      ended = h.ended;
    })
  ]
    where
      other :
          (x : SubmissionRecord)
          → find_id k db.submissions ≡ some x
          → is_running x.status ≡ true
          → id ≢ k
      other x found busy e = ground (
        arith,
        busy_is_active x busy,
        subst (λ j. find_id j db.submissions ≡ some r) e h.stored,
        h.ended,
      )

  complete-Finished :
      (o : Outcome) (now : Bytes) (k : ℕ) (verdict : Verdict) (error_type : Option Bytes)
      (db : Database)
      → Finished id r db
      → Finished id r (complete o now k verdict error_type db).1
  unfolding complete
  complete-Finished (invalid e) now k verdict error_type db h = h
  complete-Finished (fails e) now k verdict error_type db h = h
  complete-Finished works now k verdict error_type db h = finish_row-Finished k _ db (λ x. refl) h

  fail-Finished :
      (o : Outcome) (now : Bytes) (k : ℕ) (error_type : Option Bytes) (db : Database)
      → Finished id r db
      → Finished id r (fail o now k error_type db).1
  unfolding fail
  fail-Finished (invalid e) now k error_type db h = h
  fail-Finished (fails e) now k error_type db h = h
  fail-Finished works now k error_type db h = finish_row-Finished k _ db (λ x. refl) h

  claim_next-Finished :
      (limits : SubmissionQueueLimits) (o : Outcome) (db : Database)
      → IdsBelow db.next_id db.submissions
      → Finished id r db
      → Finished id r (claim_next limits o db).1
  unfolding claim_next
  claim_next-Finished limits (invalid e) db b h = h
  claim_next-Finished limits (fails e) db b h = h
  claim_next-Finished limits works db b h = elim (claim_next_lem limits db b) [
    | inl idle ↦ rw idle.unchanged h
    | inr (x, claimed) ↦ record {
      stored = claimed.others id (other x claimed) ∙ h.stored;
      ended = h.ended;
    }
  ]
    where
      other : (x : SubmissionRecord) → Claimed limits db x → id ≢ x.id
      other x claimed e = ground (
        arith,
        claimable-is_active limits db.submissions x claimed.eligible,
        claimed.stored,
        subst (λ j. find_id j db.submissions ≡ some r) e h.stored,
        h.ended,
      )

  recover_running-Finished :
      (o : Outcome) (db : Database) → Finished id r db → Finished id r (recover_running o db).1
  unfolding recover_running
  recover_running-Finished (invalid e) db h = h
  recover_running-Finished (fails e) db h = h
  recover_running-Finished works db h = record {
    stored = ground (
      arith,
      h.stored,
      h.ended,
      find_id-update_where running_row requeue_row (λ x. refl) id db.submissions,
    );
    ended = h.ended;
  }

  create-Finished :
      (limits : SubmissionQueueLimits) (o counting : Outcome) (now : Bytes)
      (request : SubmissionRequest) (db : Database)
      → IdsBelow db.next_id db.submissions
      → Finished id r db
      → Finished id r (create limits o counting now request db).1
  unfolding create
  create-Finished limits (invalid e) counting now request db b h = h
  create-Finished limits (fails e) counting now request db b h = h
  create-Finished limits works counting now request db b h =
      elim (Bool-cases (has_room limits request.user_id db)) [
        | inl t ↦ rw t (insert-Finished _ db b refl h)
        | inr t ↦ rw t h
      ]

  retry-Finished :
      (limits : SubmissionQueueLimits) (o : RetryOutcomes) (now : Bytes) (k admin : ℕ)
      (db : Database)
      → IdsBelow db.next_id db.submissions
      → Finished id r db
      → Finished id r (retry limits o now k admin db).1
  unfolding retried_row
  retry-Finished limits o now k admin db b h = elim (retry_lem limits now k admin db o) [
    | inl refused ↦ rw refused.1 h
    | inr (original, found, may, result, left) ↦ rw left (record {
      stored = (insert-Finished (retried_row now db.next_id original) db b refl h).stored;
      ended = h.ended;
    })
  ]

  audit-Finished :
      (o : Outcome) (entry : AuditEntry) (db : Database)
      → Finished id r db
      → Finished id r (audit o entry db).1
  unfolding audit
  audit-Finished (invalid e) entry db h = h
  audit-Finished (fails e) entry db h = h
  audit-Finished works entry db h = record { stored = h.stored; ended = h.ended }

  step-Finished :
      (limits : SubmissionQueueLimits) (c : Call) (db : Database)
      → IdsBelow db.next_id db.submissions
      → Finished id r db
      → Finished id r (step limits c db)
  unfolding step trainer.Sqlite.claim_uncommitted
  step-Finished limits (creates o counting now request) db b h =
      create-Finished limits o counting now request db b h
  step-Finished limits (completes o now k verdict error_type) db b h =
      complete-Finished o now k verdict error_type db h
  step-Finished limits (fails_with o now k error_type) db b h =
      fail-Finished o now k error_type db h
  step-Finished limits (claims o) db b h = claim_next-Finished limits o db b h
  step-Finished limits claims_uncommitted db b h = h
  step-Finished limits (recovers o) db b h = recover_running-Finished o db h
  step-Finished limits (retries o now k admin) db b h = retry-Finished limits o now k admin db b h
  step-Finished limits (audits o entry) db b h = audit-Finished o entry db h

  -- From a database that satisfies the invariant, a row that is completed or failed is found
  -- unchanged after every history of calls, whatever their statements' outcomes.
  pub run-Finished :
      (limits : SubmissionQueueLimits) (cs : List Call) (db : Database)
      → Inv limits db
      → Finished id r db
      → Finished id r (run limits cs db)
  unfolding run
  run-Finished limits [] db v h = h
  run-Finished limits (c ∷ cs) db v h =
      run-Finished limits cs (step limits c db) (step-Inv limits c db v)
        (step-Finished limits c db v.fresh h)

-- The calls that requests make: they submit, retry and audit.
abbrev pub IsOutside : Call → Type 0
IsOutside (creates o counting now request) = Unit {0}
IsOutside (retries o now id admin) = Unit {0}
IsOutside (audits o entry) = Unit {0}
IsOutside _ = ⊥
