-- ===== src/Tests/Guarding.antt =====
-- The lookups and the retry of backend/src/main.cpp: an administrator and another user ask, with a
-- repository that counts its retries.
use trainer.Prelude.{
  ℕ, suc, ◌≡◌, ◌≤◌, ◌↔◌, ◌⊎◌, refl, true, false, none, some, Option, List, [], ◌∷◌, Bytes, codes,
  ok, err, Result,
}
use trainer.Submission.{SubmissionRecord, RepositoryError, queued}
use trainer.Auth.{AuthUser, AuthError}
use trainer.Service.{SubmissionServiceError}
use trainer.Server.Lookups.{positive_id, retry_response, admin_retry_submission}
use trainer.Server.Guards.{admin_retry_lem}

abbrev ada : AuthUser
ada = record { id = 1; username = codes "ada"; created_at = []; is_admin = true }

abbrev signed_in : Result AuthError AuthUser
signed_in = ok ada

abbrev row : SubmissionRecord
row = record {
  id = 12;
  problem_id = codes "echo";
  language = codes "python";
  source_code = [];
  status = queued;
  verdict = none;
  created_at = [];
  completed_at = none;
  user_id = none;
  error_type = none;
  retry_of = none;
}

abbrev always : ℕ → Result SubmissionServiceError (Option SubmissionRecord)
always id = ok (some row)

twelve : positive_id (codes "12") ≡ some 12
unfolding positive_id codes trainer.Prelude.all_of
twelve = refl

zero_is_refused : positive_id (codes "0") ≡ none
unfolding positive_id codes trainer.Prelude.all_of
zero_is_refused = refl

abbrev counted_retry : ℕ → ℕ → ℕ → Result RepositoryError SubmissionRecord × ℕ
counted_retry id admin n = (ok row, suc n)

admin_retry_lem_example :
    ((admin_retry_submission counted_retry suc signed_in signed_in (codes "12") 0).1 ≡ 0)
    ⊎ ((user admin : AuthUser) × (id : ℕ) × (signed_in ≡ ok user)
        × (user.is_admin ≡ true)
        × (signed_in ≡ ok admin)
        × (positive_id (codes "12") ≡ some id)
        × (admin_retry_submission counted_retry suc signed_in signed_in (codes "12") 0
            ≡ retry_response counted_retry suc (counted_retry id admin.id 0)))
admin_retry_lem_example = admin_retry_lem counted_retry suc signed_in signed_in (codes "12") 0
