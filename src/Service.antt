-- ===== src/Service.antt =====
-- `SubmissionService` (backend/src/submission-service.cpp). The repository and the notifier of the
-- queue are interfaces of the program, here operations on a world `S`.
pub mod Submitting
use trainer.Prelude.{ℕ, Option, none, some, List, Bytes, Result, ok, err}
use trainer.Submission.{
  SubmissionRequest, SubmissionRecord, RepositoryErrorCode, RepositoryError, user_submission_limit,
}
use trainer.Submission as Submission

pub data SubmissionServiceErrorCode : Type 0 where
  internal rate_limited queue_full : SubmissionServiceErrorCode

pub record SubmissionServiceError : Type 0 where
  pub message : Bytes
  pub code : SubmissionServiceErrorCode

abbrev pub Submitted : Type 0
Submitted = Result SubmissionServiceError SubmissionRecord

abbrev pub service_code : RepositoryErrorCode → SubmissionServiceErrorCode
service_code user_submission_limit = rate_limited
service_code Submission.queue_full = queue_full
service_code Submission.internal = internal

-- What `find`, `history` and `progress` make of a repository's answer.
unfoldable pub answer : {A : Type 0} → Result RepositoryError A → Result SubmissionServiceError A
answer (ok value) = ok value
answer (err error) = err (record { message = error.message; code = internal })

module _ {S : Type 0} (create : SubmissionRequest → S → Result RepositoryError SubmissionRecord × S)
    (queue_notifier : Option (S → S)) where
  abbrev notified : S → S
  notified s = elim queue_notifier [ none ↦ s | some notifier ↦ notifier s ]

  -- `submit` behind the call of the repository.
  unfoldable pub submit_created : Result RepositoryError SubmissionRecord × S → Submitted × S
  submit_created (err error, s) =
      (err (record { message = error.message; code = service_code error.code }), s)
  submit_created (ok queued, s) = (ok queued, notified s)

  unfoldable pub submit : SubmissionRequest → S → Submitted × S
  unfolding submit_created
  submit submission s = submit_created (create submission s)
