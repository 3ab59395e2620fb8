-- ===== src/Sqlite/Claiming.antt =====
-- Which submission `claim_next` hands to a worker
-- (backend/src/sqlite-submission-repository.cpp).
use trainer.Prelude.{
  ℕ, ◌≤◌, ◌≡◌, ◌≢◌, refl, ◌⊎◌, inl, inr, true, false, Option-cases, none, some, arith, ok,
}
use trainer.Submission.{SubmissionRecord}
use trainer.Submission.Names.{read_record-columns}
use trainer.Table.{
  Database, IdsBelow, find_id, update_id, find_id-update_id, find_id-update_id_ne, oldest_where,
  oldest_where-holds, oldest_where-least, oldest_where-none, find_id-oldest_where,
}
use trainer.Sqlite.{works, SubmissionQueueLimits, claimable, start_row, claim_next}

module _ (limits : SubmissionQueueLimits) (db : Database) where
  -- Nothing to take, or the oldest row to take is marked as running and no other row changes.
  pub record Claimed (r : SubmissionRecord) : Type 0 where
    pub stored : find_id r.id db.submissions ≡ some r
    pub eligible : claimable limits db.submissions r ≡ true
    pub oldest :
        (k : ℕ) (s : SubmissionRecord)
        → find_id k db.submissions ≡ some s
        → claimable limits db.submissions s ≡ true
        → r.id ≤ s.id
    pub returned : (claim_next limits works db).0 ≡ ok (some (start_row r))
    pub started : find_id r.id (claim_next limits works db).1.submissions ≡ some (start_row r)
    pub others :
        (k : ℕ)
        → k ≢ r.id
        → find_id k (claim_next limits works db).1.submissions ≡ find_id k db.submissions

  pub record Nothing : Type 0 where
    pub none_eligible :
        (k : ℕ) (s : SubmissionRecord)
        → find_id k db.submissions ≡ some s
        → claimable limits db.submissions s ≡ false
    pub returned : (claim_next limits works db).0 ≡ ok none
    pub unchanged : (claim_next limits works db).1 ≡ db

  left_by :
      (r : SubmissionRecord)
      → oldest_where (claimable limits db.submissions) db.submissions ≡ some r
      → (claim_next limits works db).1
        ≡ record db { submissions = update_id r.id start_row db.submissions }
  unfolding claim_next
  left_by r e = rw (e, claim_next)

  returned_by :
      (r : SubmissionRecord)
      → oldest_where (claimable limits db.submissions) db.submissions ≡ some r
      → (claim_next limits works db).0 ≡ ok (some (start_row r))
  unfolding claim_next
  returned_by r e = rw (e, claim_next, read_record-columns (start_row r))

  claim_next-Claimed :
      (r : SubmissionRecord)
      → IdsBelow db.next_id db.submissions
      → oldest_where (claimable limits db.submissions) db.submissions ≡ some r
      → Claimed r
  claim_next-Claimed r b e = record {
    stored = stored;
    eligible = oldest_where-holds _ db.submissions r e;
    oldest = λ k s h t. oldest_where-least _ db.next_id k db.submissions r s b e h t;
    returned = returned;
    started =
        ground
          (arith, left, stored, find_id-update_id r.id start_row (λ x. refl) r.id db.submissions);
    others = λ k ne. rw left (find_id-update_id_ne r.id start_row (λ x. refl) k db.submissions ne);
  }
    where
      stored : find_id r.id db.submissions ≡ some r
      stored = find_id-oldest_where _ db.next_id db.submissions r b e

      left :
          (claim_next limits works db).1
          ≡ record db { submissions = update_id r.id start_row db.submissions }
      left = left_by r e

      returned : (claim_next limits works db).0 ≡ ok (some (start_row r))
      returned = returned_by r e

  -- Where the ids fall along the rows below the next id, a claim that works either finds nothing to take and changes nothing, or takes the oldest
  -- row that is queued while its user runs fewer than the limit, marks it as running and changes
  -- no other row.
  pub claim_next_lem :
      IdsBelow db.next_id db.submissions → Nothing ⊎ ((r : SubmissionRecord) × Claimed r)
  unfolding claim_next
  claim_next_lem b =
      elim (Option-cases (oldest_where (claimable limits db.submissions) db.submissions)) [
        | inl e ↦ inl (record {
          none_eligible = λ k s h. oldest_where-none _ k db.submissions s e h;
          returned = rw (e, claim_next);
          unchanged = rw (e, claim_next);
        })
        | inr (r, e) ↦ inr (r, claim_next-Claimed r b e)
      ]
