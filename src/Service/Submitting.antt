-- ===== src/Service/Submitting.antt =====
-- `SubmissionService::submit` on the SQLite repository, with a notifier that counts its calls.
use trainer.Prelude.{ℕ, suc, ◌≤◌, ◌<◌, ◌≡◌, ◌⊎◌, refl, inl, inr, some, Bytes, ok, err, Result}
use trainer.Submission.{SubmissionRequest, SubmissionRecord, RepositoryError}
use trainer.Table.{Database, insert_row}
use trainer.Sqlite.{works, SubmissionQueueLimits, new_row, create}
use trainer.Sqlite.Admission.{active, active_of_user, create-Admitted}
use trainer.Service.{
  SubmissionServiceError, rate_limited, queue_full, Submitted, service_code, submit_created, submit,
}

-- The database, and how often the notifier was called.
abbrev pub Counted : Type 0
Counted = Database × ℕ

abbrev pub counted_create :
    SubmissionQueueLimits
    → Bytes
    → SubmissionRequest
    → Counted
    → Result RepositoryError SubmissionRecord × Counted
counted_create limits now request (db, calls) = (
  (create limits works works now request db).0,
  ((create limits works works now request db).1, calls),
)

abbrev pub count_call : Counted → Counted
count_call (db, calls) = (db, suc calls)

module _ (limits : SubmissionQueueLimits) (now : Bytes) (request : SubmissionRequest)
    (db : Database) (calls : ℕ) where
  -- Accepted, stored and notified once below both limits; else refused with the limit that is
  -- reached, nothing stored and nobody notified.
  abbrev pub Answered : Submitted × Counted → Type 0
  Answered (result, left) =
      ((active limits request db < limits.maximum_active_submissions)
        × (active_of_user limits request db < limits.maximum_active_submissions_per_user)
        × (result ≡ ok (new_row now request db))
        × (left ≡ (insert_row (new_row now request db) db, suc calls)))
      ⊎ ((e : SubmissionServiceError) × (limits.maximum_active_submissions_per_user
            ≤ active_of_user limits request db)
          × (e.code ≡ rate_limited)
          × (result ≡ err e)
          × (left ≡ (db, calls)))
      ⊎ ((e : SubmissionServiceError) × (limits.maximum_active_submissions
            ≤ active limits request db)
          × (active_of_user limits request db < limits.maximum_active_submissions_per_user)
          × (e.code ≡ queue_full)
          × (result ≡ err e)
          × (left ≡ (db, calls)))

  -- On a database whose statements work, the service accepts a submission exactly below both
  -- limits, stores it and notifies the workers once; else it answers `rate_limited` where the user
  -- has reached the limit and `queue_full` where only the queue has, stores nothing and notifies
  -- nobody.
  pub submit-Answered :
      Answered (submit (counted_create limits now) (some count_call) request (db, calls))
  unfolding submit submit_created
  submit-Answered = elim (create-Admitted limits request db now) [
    | inl (a, u, result, left) ↦
        inl (a, u, rw (submit_created, result) refl, rw (submit_created, result, left) refl)
    | inr (inl (e, u, code, result, left)) ↦ inr (
        inl (
          record { message = e.message; code = service_code e.code },
          u,
          rw code refl,
          rw (submit_created, result) refl,
          rw (submit_created, result, left) refl,
        ))
    | inr (inr (e, a, u, code, result, left)) ↦ inr (
        inr (
          record { message = e.message; code = service_code e.code },
          a,
          u,
          rw code refl,
          rw (submit_created, result) refl,
          rw (submit_created, result, left) refl,
        ))
  ]
