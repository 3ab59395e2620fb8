-- ===== src/Sqlite/Finishing.antt =====
-- The update behind `complete` and `fail` of backend/src/sqlite-submission-repository.cpp.
use trainer.Prelude.{
  ℕ, ◌≡◌, ◌⊎◌, inl, inr, true, false, Bool-cases, Option-cases, some, codes, ok, err, arith,
}
use trainer.Submission.{SubmissionRecord, is_running, plain_error}
use trainer.Submission.Names.{read_record-columns}
use trainer.Table.{Database, find_id, update_id}
use trainer.Sqlite.{Stored, find_running, finish_row}

-- Either the submission is not there or not running, with an error and no change, or its row is
-- replaced and returned.
abbrev pub Finish : ℕ → (SubmissionRecord → SubmissionRecord) → Database → Stored → Type 0
Finish id f db s =
    ((s.0 ≡ err (plain_error (codes "Submission is missing or is not running")))
      × (s.1 ≡ db)
      × ((r : SubmissionRecord) → find_id id db.submissions ≡ some r → is_running r.status ≡ false))
    ⊎ ((r : SubmissionRecord) × (find_id id db.submissions ≡ some r)
        × (is_running r.status ≡ true)
        × (s.0 ≡ ok (f r))
        × (s.1 ≡ record db { submissions = update_id id f db.submissions }))

-- The update behind `complete` and `fail` either refuses, changes nothing and the submission with
-- that id, if there is one, is not running; or the submission is there and running, its row is
-- replaced by the new one, and the new row is returned.
pub finish_row_lem :
    (id : ℕ) (f : SubmissionRecord → SubmissionRecord) (db : Database)
    → Finish id f db (finish_row id f db)
unfolding finish_row find_running
finish_row_lem id f db = elim (Option-cases (find_id id db.submissions)) [
  | inl e ↦ inl (rw (e, finish_row, find_running), rw (e, finish_row, find_running), λ r h. cc)
  | inr (r, e) ↦ elim (Bool-cases (is_running r.status)) [
    | inl t ↦ inr (
      r,
      e,
      t,
      rw (e, finish_row, find_running, t) (read_record-columns (f r)),
      rw (e, finish_row, find_running, t),
    )
    | inr t ↦ inl (
      rw (e, finish_row, find_running, t),
      rw (e, finish_row, find_running, t),
      λ x h. ground (arith, t),
    )
  ]
]
