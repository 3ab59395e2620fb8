-- ===== src/Worker/Exclusion.antt =====
-- Several workers (backend/src/submission-worker.cpp) on the PostgreSQL repository
-- (backend/src/postgresql-submission-repository.cpp). A worker holds a submission from the claim until
-- it has settled it; between these two steps any other worker and any request may act. A call of the
-- repository is one step: it is a single statement, or a transaction behind the mutex of the
-- connection. The settling of a submission is one step, also where it calls `complete` and then
-- `fail`.
use trainer.Prelude.{
  ℕ, ◌≤◌, sym, ap, Result, ◌≡◌, ◌≢◌, refl, ◌∙◌, inl, inr, Option, some, List, ◌∷◌, ◌++◌, Bytes,
  arith, ok,
}
use trainer.Submission.{Verdict, SubmissionRequest, SubmissionRecord, RepositoryError}
use trainer.Judge.{JudgeRequest, JudgeResult}
use trainer.Table.{Database, IdsBelow, find_id}
use trainer.Sqlite.{
  Outcome, works, invalid, fails, SubmissionQueueLimits, complete, fail, claimable, start_row,
  claim_next, create, has_room,
}
use trainer.Sqlite.Retry.{RetryOutcomes, retried_row, retry, audit}
use trainer.Sqlite.Retrying.{retry_lem}
use trainer.Sqlite.Calls.{
  Call, creates, completes, fails_with, claims, claims_uncommitted, retries, audits, recovers, step,
}
use trainer.Sqlite.Invariant.{Inv}
use trainer.Sqlite.Preservation.{claim_next-Inv, complete-Inv, fail-Inv}
use trainer.Sqlite.Claiming.{Claimed, claim_next_lem}
use trainer.Sqlite.Finality.{IsOutside}
use trainer.Prelude.{subst, Bool-cases}
use trainer.Worker.{Services, settle}
use trainer.Postgres as Server
use trainer.Postgres.{Reply, LockedReplies, with_next_id}
use trainer.Postgres.Agreement.{Agrees, claim_next-Agrees}
use trainer.Postgres.Histories.{
  ServerCall, serve, serve_lem, serve-Inv, as_sqlite, postgres_services, Agrees-left,
  complete-Agrees, fail-Agrees, with_next_id-Inv,
}
use trainer.Worker.Held.{
  Running, AllRunning, IsNew, IsDistinct, AllRunning-drop, IsDistinct-drop, IsDistinct-IsNew,
  AllRunning-keep, AllRunning-map, idle_IsNew, complete-Running, fail-Running, insert-Running,
}
use trainer.Worker.Keeping.{settle_keeps}

-- The database, and the ids of the submissions that workers hold.
pub record Shared : Type 0 where
  pub db : Database
  pub held : List ℕ

module _ (limits : SubmissionQueueLimits) where
  pub data Step (s : Shared) : Shared → Type 0 where
    -- A worker claims a submission.
    takes :
        (o : LockedReplies) (r : SubmissionRecord)
        → (Server.claim_next limits o s.db).0 ≡ ok (some r)
        → Step s (record { db = (Server.claim_next limits o s.db).1; held = r.id ∷ s.held })
    -- A worker settles one of the submissions that are held, whatever the judge said.
    settles :
        (claiming : LockedReplies) (completing failing : Reply) (now : Bytes)
        (result : Option JudgeResult) (before after : List ℕ) (id : ℕ)
        → s.held ≡ before ++ (id ∷ after)
        → Step s (record {
          db =
              settle
                (postgres_services limits claiming completing failing now (λ request. result))
                id
                result
                s.db;
          held = before ++ after;
        })
    -- A request submits, retries or audits.
    requests :
        (c : ServerCall)
        → IsOutside (as_sqlite c)
        → Step s (record { db = serve limits c s.db; held = s.held })

  pub data Reach (s : Shared) : Shared → Type 0 where
    here : Reach s s
    next : {t u : Shared} → Reach s t → Step t u → Reach s u

  pub record IsExclusive (s : Shared) : Type 0 where
    pub consistent : Inv limits s.db
    pub running : AllRunning s.db s.held
    pub distinct : IsDistinct s.held

  create-Running :
      (o counting : Outcome) (now : Bytes) (request : SubmissionRequest) (j : ℕ) (db : Database)
      → IdsBelow db.next_id db.submissions
      → Running db j
      → Running (create limits o counting now request db).1 j
  unfolding create
  create-Running (invalid e) counting now request j db b h = h
  create-Running (fails e) counting now request j db b h = h
  create-Running works counting now request j db b h =
      elim (Bool-cases (has_room limits request.user_id db)) [
        | inl t ↦ rw t (insert-Running j _ db b refl h)
        | inr t ↦ rw t h
      ]

  retry-Running :
      (o : RetryOutcomes) (now : Bytes) (id admin j : ℕ) (db : Database)
      → IdsBelow db.next_id db.submissions
      → Running db j
      → Running (retry limits o now id admin db).1 j
  unfolding retried_row
  retry-Running o now id admin j db b h = elim (retry_lem limits now id admin db o) [
    | inl refused ↦ rw refused.1 h
    | inr (original, found, may, result, left) ↦
        rw left (insert-Running j (retried_row now db.next_id original) db b refl h)
  ]

  request-Running :
      (c : Call) (j : ℕ) (db : Database)
      → IsOutside c
      → IdsBelow db.next_id db.submissions
      → Running db j
      → Running (step limits c db) j
  unfolding step audit
  request-Running (creates o counting now request) j db i b h =
      create-Running o counting now request j db b h
  request-Running (retries o now id admin) j db i b h = retry-Running o now id admin j db b h
  request-Running (audits works entry) j db i b h = h
  request-Running (audits (invalid e) entry) j db i b h = h
  request-Running (audits (fails e) entry) j db i b h = h
  request-Running (completes _ _ _ _ _) j db i b h = elim i [ ]
  request-Running (fails_with _ _ _ _) j db i b h = elim i [ ]
  request-Running (claims _) j db i b h = elim i [ ]
  request-Running claims_uncommitted j db i b h = elim i [ ]
  request-Running (recovers _) j db i b h = elim i [ ]

  claim-Running :
      (x : SubmissionRecord) (j : ℕ) (db : Database)
      → Claimed limits db x
      → Running db j
      → Running (claim_next limits works db).1 j
  unfolding claimable
  claim-Running x j db claimed (r, found, t) = (r, claimed.others j other ∙ found, t)
    where
      other : j ≢ x.id
      other e = ground (
        arith,
        claimed.eligible,
        claimed.stored,
        subst (λ i. find_id i db.submissions ≡ some r) e found,
      )

  Claimed-IsExclusive :
      (x : SubmissionRecord) (s : Shared)
      → Claimed limits s.db x
      → IsExclusive s
      → IsExclusive (record { db = (claim_next limits works s.db).1; held = x.id ∷ s.held })
  unfolding claimable
  Claimed-IsExclusive x s claimed v = record {
    consistent = claim_next-Inv limits works s.db v.consistent;
    running = (
      (start_row x, claimed.started, refl),
      AllRunning-map s.db (claim_next limits works s.db).1 s.held
          (λ j h. claim-Running x j s.db claimed h) v.running,
    );
    distinct = (
      idle_IsNew s.db x.id x s.held claimed.stored (ground (arith, claimed.eligible)) v.running,
      v.distinct,
    );
  }

  -- A claim that fails returns no row.
  take-IsExclusive :
      (o : LockedReplies) (r : SubmissionRecord) (s : Shared)
      → (Server.claim_next limits o s.db).0 ≡ ok (some r)
      → IsExclusive s
      → IsExclusive (record { db = (Server.claim_next limits o s.db).1; held = r.id ∷ s.held })
  take-IsExclusive o r s h v = elim (claim_next-Agrees limits o s.db) [
    | inl ((e, refused), left) ↦ absurd (ground (arith, h, refused))
    | inr same ↦ elim (claim_next_lem limits s.db v.consistent.fresh) [
      | inl idle ↦ absurd (ground (arith, h, same, idle.returned))
      | inr (x, claimed) ↦
          subst (λ db. IsExclusive (record { db = db; held = r.id ∷ s.held }))
            (sym (ap (λ p. p.1) same))
            (subst
              (λ id.
                IsExclusive (record { db = (claim_next limits works s.db).1; held = id ∷ s.held }))
              (ground (arith, h, same, claimed.returned)) (Claimed-IsExclusive x s claimed v))
    ]
  ]

  -- What holds whatever the next id and after the call of the SQLite repository holds after the call.
  Agrees-keeps :
      {A : Type 0} (P : Database → Type 0) (reply expected : Result RepositoryError A × Database)
      (db : Database)
      → Agrees reply expected db
      → ((n : ℕ) → db.next_id ≤ n → P (with_next_id n db))
      → P expected.1
      → P reply.1
  Agrees-keeps P reply expected db agrees skipped expects =
      elim (Agrees-left limits reply expected db agrees) [
        | inl (n, le, e) ↦ subst P (sym e) (skipped n le)
        | inr e ↦ subst P (sym e) expects
      ]

  settle-IsExclusive :
      (claiming : LockedReplies) (completing failing : Reply) (now : Bytes)
      (judge : JudgeRequest → Option JudgeResult) (result : Option JudgeResult)
      (before after : List ℕ) (id : ℕ) (db : Database)
      → Inv limits db
      → AllRunning db (before ++ (id ∷ after))
      → IsDistinct (before ++ (id ∷ after))
      → IsExclusive (record {
        db = settle (postgres_services limits claiming completing failing now judge) id result db;
        held = before ++ after;
      })
  settle-IsExclusive claiming completing failing now judge result before after id db consistent held
        distinct =
      record {
        consistent =
            settle_keeps services id (Inv limits) completed_Inv failed_Inv result db consistent;
        running =
            settle_keeps services id (λ d. AllRunning d (before ++ after)) completed_Running
              failed_Running result db (AllRunning-drop db id before after held);
        distinct = IsDistinct-drop id before after distinct;
      }
    where
      services : Services Database
      services = postgres_services limits claiming completing failing now judge

      new : IsNew id (before ++ after)
      new = IsDistinct-IsNew id before after distinct

      completed_Inv :
          (verdict : Verdict) (error_type : Option Bytes) (d : Database)
          → Inv limits d
          → Inv limits (Server.complete completing now id verdict error_type d).1
      completed_Inv verdict error_type d v =
          Agrees-keeps (Inv limits) _ _ d
            (complete-Agrees limits completing now id verdict error_type d)
            (λ n le. with_next_id-Inv limits n d le v)
            (complete-Inv limits works now id verdict error_type d v)

      failed_Inv :
          (error_type : Option Bytes) (d : Database)
          → Inv limits d
          → Inv limits (Server.fail failing now id error_type d).1
      failed_Inv error_type d v =
          Agrees-keeps (Inv limits) _ _ d (fail-Agrees limits failing now id error_type d)
            (λ n le. with_next_id-Inv limits n d le v) (fail-Inv limits works now id error_type d v)

      completed_Running :
          (verdict : Verdict) (error_type : Option Bytes) (d : Database)
          → AllRunning d (before ++ after)
          → AllRunning (Server.complete completing now id verdict error_type d).1 (before ++ after)
      completed_Running verdict error_type d h =
          Agrees-keeps (λ left. AllRunning left (before ++ after)) _ _ d
            (complete-Agrees limits completing now id verdict error_type d)
            (λ n le. AllRunning-map d (with_next_id n d) (before ++ after) (λ j r. r) h)
            (AllRunning-keep d (complete works now id verdict error_type d).1 id (before ++ after)
              (λ j ne. complete-Running works now j id verdict error_type d ne) new h)

      failed_Running :
          (error_type : Option Bytes) (d : Database)
          → AllRunning d (before ++ after)
          → AllRunning (Server.fail failing now id error_type d).1 (before ++ after)
      failed_Running error_type d h =
          Agrees-keeps (λ left. AllRunning left (before ++ after)) _ _ d
            (fail-Agrees limits failing now id error_type d)
            (λ n le. AllRunning-map d (with_next_id n d) (before ++ after) (λ j r. r) h)
            (AllRunning-keep d (fail works now id error_type d).1 id (before ++ after)
              (λ j ne. fail-Running works now j id error_type d ne) new h)

  serve-Running :
      (c : ServerCall) (j : ℕ) (db : Database)
      → IsOutside (as_sqlite c)
      → IdsBelow db.next_id db.submissions
      → Running db j
      → Running (serve limits c db) j
  serve-Running c j db i b h = elim (serve_lem limits c db) [
    | inl (n, le, e) ↦ subst (λ left. Running left j) (sym e) h
    | inr e ↦ subst (λ left. Running left j) (sym e) (request-Running (as_sqlite c) j db i b h)
  ]

  Step-IsExclusive : (s t : Shared) → Step s t → IsExclusive s → IsExclusive t
  Step-IsExclusive s t (takes o r h) v = take-IsExclusive o r s h v
  Step-IsExclusive s t (settles claiming completing failing now result before after id e) v =
      settle-IsExclusive claiming completing failing now (λ request. result) result before after id
        s.db v.consistent (subst (AllRunning s.db) e v.running) (subst IsDistinct e v.distinct)
  Step-IsExclusive s t (requests c i) v = record {
    consistent = serve-Inv limits c s.db v.consistent;
    running =
        AllRunning-map s.db (serve limits c s.db) s.held
          (λ j h. serve-Running c j s.db i v.consistent.fresh h) v.running;
    distinct = v.distinct;
  }

  -- Whatever the workers and the requests do, in whatever order, and whatever the server replies: no
  -- submission is held by two workers of the PostgreSQL repository, each held submission is stored
  -- and marked as running, and the database keeps its invariant, if all this held at the start.
  pub Reach-IsExclusive : (s t : Shared) → Reach s t → IsExclusive s → IsExclusive t
  Reach-IsExclusive s t here v = v
  Reach-IsExclusive s t (next {t = u} path last) v =
      Step-IsExclusive u t last (Reach-IsExclusive s u path v)
