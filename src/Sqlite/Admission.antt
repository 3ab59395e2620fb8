-- ===== src/Sqlite/Admission.antt =====
-- When `create` accepts a submission, and which error it gives otherwise.
use trainer.Prelude.{
  ℕ, ◌≤◌, ◌<◌, ◌≡◌, refl, ◌⊎◌, inl, inr, Bool-cases, leb, codes, Bytes, arith, ok, err, count_where,
}
use trainer.Submission.{SubmissionRequest, RepositoryError, user_submission_limit, queue_full}
use trainer.Submission.Names.{read_record-columns}
use trainer.Table.{Database, active_row, active_row_of, insert_row}
use trainer.Sqlite.{works, SubmissionQueueLimits, Stored, has_room, new_row, refusal, create}

module _ (limits : SubmissionQueueLimits) (request : SubmissionRequest) (db : Database) where
  abbrev pub active : ℕ
  active = count_where active_row db.submissions

  abbrev pub active_of_user : ℕ
  active_of_user = count_where (active_row_of request.user_id) db.submissions

  -- Accepted below both limits; refused for the user's own limit first, then for the queue's.
  abbrev pub Admitted : Bytes → Stored → Type 0
  Admitted now r =
      ((active < limits.maximum_active_submissions)
        × (active_of_user < limits.maximum_active_submissions_per_user)
        × (r.0 ≡ ok (new_row now request db))
        × (r.1 ≡ insert_row (new_row now request db) db))
      ⊎ ((e : RepositoryError) × (limits.maximum_active_submissions_per_user ≤ active_of_user)
          × (e.code ≡ user_submission_limit)
          × (r.0 ≡ err e)
          × (r.1 ≡ db))
      ⊎ ((e : RepositoryError) × (limits.maximum_active_submissions ≤ active)
          × (active_of_user < limits.maximum_active_submissions_per_user)
          × (e.code ≡ queue_full)
          × (r.0 ≡ err e)
          × (r.1 ≡ db))

  -- Where both statements work, a submission is accepted exactly below both limits, and a refusal
  -- names the user's limit if the user has reached it, and else the queue's.
  pub create-Admitted : (now : Bytes) → Admitted now (create limits works works now request db)
  unfolding create refusal has_room
  create-Admitted now = elim (Bool-cases (has_room limits request.user_id db)) [
    | inl t ↦ inl (
      ground arith,
      ground arith,
      ground (arith, read_record-columns (new_row now request db)),
      ground arith,
    )
    | inr t ↦ elim (Bool-cases (leb limits.maximum_active_submissions_per_user active_of_user)) [
      | inl full ↦ inr (
          inl (
            record {
              message = codes "Too many active submissions for this user";
              code = user_submission_limit;
            },
            ground arith,
            refl,
            ground arith,
            ground arith,
          ))
      | inr free ↦ inr (
          inr (
            record { message = codes "Submission queue is full"; code = queue_full },
            ground arith,
            ground arith,
            refl,
            ground arith,
            ground arith,
          ))
    ]
  ]
