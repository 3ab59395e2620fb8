-- ===== src/Worker/Draining.antt =====
-- One worker that works a queue off (`process_one` of backend/src/submission-worker.cpp on
-- backend/src/sqlite-submission-repository.cpp), where all statements work.
use trainer.Prelude.{
  ℕ, zero, suc, ◌+◌, ◌≤◌, ◌≡◌, refl, sym, ◌∙◌, ap, subst, Bool, true, false, Option, none, some,
  List, [], ◌∷◌, Bytes, arith, nat_eq, option_nat_eq, ◌==◌, count_where, count_one, ok, err, Result,
  if◌then◌else◌, ◌⊎◌, inl, inr, Option-cases,
}
use trainer.Submission.{SubmissionRecord, is_active, is_queued, is_running, RepositoryError}
use trainer.Judge.{JudgeRequest, JudgeResult, judged, crashed, not_judged}
use trainer.Table.{
  Database, IdsBelow, find_id, update_id, find_id-update_id, update_id-IdsBelow, count-update_id,
  oldest_where, find_id-oldest_where, oldest_where-holds, count-same, count_mono, count-cover,
  running_row_of, active_row,
}
use trainer.Sqlite.{works, SubmissionQueueLimits, claimable, start_row, claim_next, running_row}
use trainer.Submission.Names.{read_record-columns}
use trainer.Worker.{
  Services, process_one, settle, WorkResult, processed, idle, repository_error, judge_request,
}
use trainer.Worker.Settling.{sqlite_services, settled_row, settle-update_id}

abbrev pub queued_row : SubmissionRecord → Bool
queued_row r = is_queued r.status

-- Where no row has the property.
oldest_where-count :
    (p : SubmissionRecord → Bool) (rows : List SubmissionRecord)
    → oldest_where p rows ≡ none
    → count_where p rows ≡ 0
unfolding oldest_where count_where
oldest_where-count p [] h = refl
oldest_where-count p (r ∷ rows) h = ground (arith, h, oldest_where-count p rows)

-- A row that is updated is found still.
find_id-updated :
    (k : ℕ) (f : SubmissionRecord → SubmissionRecord)
    (keeps : (r : SubmissionRecord) → (f r).id ≡ r.id) (j : ℕ) (rows : List SubmissionRecord)
    (s : SubmissionRecord)
    → find_id j rows ≡ some s
    → (s' : SubmissionRecord) × (find_id j (update_id k f rows) ≡ some s')
find_id-updated k f keeps j rows s h =
    ((if s.id == k then f s else s), find_id-update_id k f keeps j rows ∙ (rw h refl))

module _ (limits : SubmissionQueueLimits) (now : Bytes) (judge : JudgeRequest → Option JudgeResult)
    (some_limit : 1 ≤ limits.maximum_running_submissions_per_user) where
  abbrev pub services : Services Database
  services = sqlite_services limits works works works now judge

  -- No submission is running: the state after `recover_running`, and between two submissions of a
  -- worker that is alone.
  pub record Quiet (db : Database) : Type 0 where
    pub fresh : IdsBelow db.next_id db.submissions
    pub still : count_where running_row db.submissions ≡ 0

  -- Then every row that is queued may be taken.
  claimable-queued :
      (db : Database)
      → Quiet db
      → count_where (claimable limits db.submissions) db.submissions
        ≡ count_where queued_row db.submissions
  unfolding claimable
  claimable-queued db q =
      count-same (claimable limits db.submissions) queued_row
        (λ r. ground (
          arith,
          some_limit,
          q.still,
          count_mono (running_row_of r.user_id) running_row (λ x h. ground arith) db.submissions,
        ))
        db.submissions

  -- The submissions that are stored stay so.
  abbrev pub Stays : Database → Database → Type 0
  Stays db db' =
      (k : ℕ) (s : SubmissionRecord)
      → find_id k db.submissions ≡ some s
      → (s' : SubmissionRecord) × (find_id k db'.submissions ≡ some s')

  -- One submission of the queue is worked off.
  pub record Worked (db db' : Database) : Type 0 where
    pub quiet : Quiet db'
    pub fewer : suc (count_where queued_row db'.submissions) ≡ count_where queued_row db.submissions
    pub stays : Stays db db'

  settled_keeps :
      (result : Option JudgeResult) (x : SubmissionRecord) → (settled_row now result x).id ≡ x.id
  settled_keeps none x = refl
  settled_keeps (some (not_judged message)) x = refl
  settled_keeps (some (crashed type)) x = refl
  settled_keeps (some (judged verdict)) x = refl

  settled_ends :
      (result : Option JudgeResult) (x : SubmissionRecord)
      → is_active (settled_row now result x).status ≡ false
  settled_ends none x = refl
  settled_ends (some (not_judged message)) x = refl
  settled_ends (some (crashed type)) x = refl
  settled_ends (some (judged verdict)) x = refl

  -- The rows behind the claim of a row and its settling.
  abbrev worked_rows : SubmissionRecord → Option JudgeResult → Database → Database
  worked_rows r result db = record db {
    submissions = update_id r.id (settled_row now result) (update_id r.id start_row db.submissions);
  }

  worked_rows-Worked :
      (r : SubmissionRecord) (result : Option JudgeResult) (db : Database)
      → Quiet db
      → find_id r.id db.submissions ≡ some r
      → claimable limits db.submissions r ≡ true
      → Worked db (worked_rows r result db)
  unfolding claimable
  worked_rows-Worked r result db q stored eligible = record {
    quiet = record {
      fresh = update_id-IdsBelow r.id (settled_row now result) (settled_keeps result) _ _ fresh1;
      still =
          ground (arith, q.still, eligible, running1, running2, settled_ends result (start_row r));
    };
    fewer = ground (arith, eligible, queued1, queued2, settled_ends result (start_row r));
    stays = λ k s h.
        let (s1, h1) = find_id-updated r.id start_row (λ x. refl) k db.submissions s h in
        find_id-updated r.id (settled_row now result) (settled_keeps result) k
          (update_id r.id start_row db.submissions) s1 h1;
  }
    where
      rows1 : List SubmissionRecord
      rows1 = update_id r.id start_row db.submissions

      fresh1 : IdsBelow db.next_id rows1
      fresh1 = update_id-IdsBelow r.id start_row (λ x. refl) db.next_id db.submissions q.fresh

      stored1 : find_id r.id rows1 ≡ some (start_row r)
      stored1 =
          ground (arith, stored, find_id-update_id r.id start_row (λ x. refl) r.id db.submissions)

      queued1 :
          count_where queued_row rows1 + count_one (is_queued r.status)
          ≡ count_where queued_row db.submissions + 0
      queued1 = count-update_id r.id start_row queued_row db.next_id db.submissions r q.fresh stored

      running1 :
          count_where running_row rows1 + count_one (is_running r.status)
          ≡ count_where running_row db.submissions + 1
      running1 =
          count-update_id r.id start_row running_row db.next_id db.submissions r q.fresh stored

      queued2 :
          count_where queued_row (update_id r.id (settled_row now result) rows1) + 0
          ≡ count_where queued_row rows1
            + count_one (is_queued (settled_row now result (start_row r)).status)
      queued2 =
          count-update_id r.id (settled_row now result) queued_row db.next_id rows1 (start_row r)
            fresh1 stored1

      running2 :
          count_where running_row (update_id r.id (settled_row now result) rows1) + 1
          ≡ count_where running_row rows1
            + count_one (is_running (settled_row now result (start_row r)).status)
      running2 =
          count-update_id r.id (settled_row now result) running_row db.next_id rows1 (start_row r)
            fresh1 stored1

  -- `process_one` behind the claim.
  after_claim : Result RepositoryError (Option SubmissionRecord) × Database → WorkResult × Database
  after_claim (err e, db) = (repository_error, db)
  after_claim (ok none, db) = (idle, db)
  after_claim (ok (some r), db) = (processed, settle services r.id (judge (judge_request r)) db)

  process_one-after_claim :
      (db : Database) → process_one services db ≡ after_claim (claim_next limits works db)
  unfolding process_one after_claim
  process_one-after_claim db = go (claim_next limits works db)
    where
      go :
          (x : Result RepositoryError (Option SubmissionRecord) × Database)
          → (elim x.0 [
            | err e ↦ (repository_error, x.1)
            | ok none ↦ (idle, x.1)
            | ok (some r) ↦ (processed, settle services r.id (judge (judge_request r)) x.1)
          ])
            ≡ after_claim x
      go (err e, db) = refl
      go (ok none, db) = refl
      go (ok (some r), db) = refl

  -- What one call of `process_one` does: the worker is idle where nothing is queued, or a submission
  -- is worked off.
  process_one-Worked :
      (db : Database)
      → Quiet db
      → ((count_where queued_row db.submissions ≡ 0) × (process_one services db ≡ (idle, db)))
        ⊎ ((db' : Database) × (process_one services db ≡ (processed, db')) × Worked db db')
  unfolding process_one claim_next after_claim
  process_one-Worked db q =
      elim (Option-cases (oldest_where (claimable limits db.submissions) db.submissions)) [
        | inl e ↦ inl (
          sym (claimable-queued db q)
              ∙ oldest_where-count (claimable limits db.submissions) db.submissions e,
          process_one-after_claim db ∙ ap after_claim (no_claim e),
        )
        | inr (r, e) ↦ inr (
          worked_rows r (judge (judge_request (start_row r))) db,
          processed_by r e,
          worked_rows-Worked r (judge (judge_request (start_row r))) db q
              (find_id-oldest_where (claimable limits db.submissions) db.next_id db.submissions r
                q.fresh e)
              (oldest_where-holds (claimable limits db.submissions) db.submissions r e),
        )
      ]
    where
      no_claim :
          oldest_where (claimable limits db.submissions) db.submissions ≡ none
          → claim_next limits works db ≡ (ok none, db)
      no_claim e = rw (claim_next, e) refl

      claim_next_pair :
          (r : SubmissionRecord)
          → oldest_where (claimable limits db.submissions) db.submissions ≡ some r
          → claim_next limits works db ≡ (
            ok (some (start_row r)),
            record db { submissions = update_id r.id start_row db.submissions },
          )
      claim_next_pair r e = rw (claim_next, e, read_record-columns (start_row r)) refl

      found :
          (r : SubmissionRecord)
          → oldest_where (claimable limits db.submissions) db.submissions ≡ some r
          → find_id r.id (update_id r.id start_row db.submissions) ≡ some (start_row r)
      found r e = ground (
        arith,
        find_id-oldest_where (claimable limits db.submissions) db.next_id db.submissions r q.fresh
            e,
        find_id-update_id r.id start_row (λ x. refl) r.id db.submissions,
      )

      processed_by :
          (r : SubmissionRecord)
          → oldest_where (claimable limits db.submissions) db.submissions ≡ some r
          → process_one services db
            ≡ (processed, worked_rows r (judge (judge_request (start_row r))) db)
      processed_by r e =
          process_one-after_claim db
          ∙ ap after_claim (claim_next_pair r e)
          ∙ ap (λ x. (processed, x))
              (settle-update_id r.id (start_row r)
                (record db { submissions = update_id r.id start_row db.submissions }) (found r e)
                refl limits now judge (judge (judge_request (start_row r))))

  -- A worker that calls `process_one` again and again.
  unfoldable pub rounds : ℕ → Database → Database
  rounds zero db = db
  rounds (suc n) db = rounds n (process_one services db).1

  -- A worker that is alone drains the queue: where a user may run a submission, the ids fall along
  -- the rows below the next id, nothing is running, and all statements work, as many calls of
  -- `process_one` as submissions are queued leave every submission stored, and none that is queued or
  -- running, whatever the judge says.
  pub rounds-Quiet :
      (n : ℕ) (db : Database)
      → Quiet db
      → count_where queued_row db.submissions ≡ n
      → Quiet (rounds n db)
        × (count_where active_row (rounds n db).submissions ≡ 0)
        × Stays db (rounds n db)
  unfolding rounds
  rounds-Quiet zero db q h = (
    q,
    ground (
      arith,
      q.still,
      h,
      count-cover active_row (λ r. false) running_row queued_row (λ r. false) (λ r. ground arith)
          db.submissions,
    ),
    λ k s f. (s, f),
  )
  rounds-Quiet (suc n) db q h = elim (process_one-Worked db q) [
    | inl (none_queued, e) ↦ absurd (ground (arith, h, none_queued))
    | inr (db', e, w) ↦
        let (quiet, none_active, stays) = rounds-Quiet n db' w.quiet (ground (arith, h, w.fewer)) in
        subst
          (λ x.
            Quiet (rounds n x.1)
            × (count_where active_row (rounds n x.1).submissions ≡ 0)
            × Stays db (rounds n x.1))
          (sym e) (quiet, none_active, λ k s f. let (s', f') = w.stays k s f in stays k s' f')
  ]
