-- ===== src/Server/Guards.antt =====
-- Who may retry a submission and list them, and what the lookup says.
use trainer.Prelude.{
  ℕ, ◌≤◌, ◌≡◌, ◌↔◌, ◌⊎◌, refl, ap, ◌∙◌, inl, inr, true, Bool-cases, Option-cases, Result-cases,
  Option, some, Bytes, ok, err, Result, arith, nat_eq,
}
use trainer.Submission.{SubmissionRecord, RepositoryError}
use trainer.Auth.{AuthUser, AuthError}
use trainer.Service.{SubmissionServiceError}
use trainer.Server.Lookups.{
  maximum_id, positive_id, require_admin, found_response, get_submission, retry_response,
  admin_retry_submission,
}

-- An id that is accepted is positive and fits in 64 bits.
pub positive_id-bounds :
    (raw : Bytes) (n : ℕ) → positive_id raw ≡ some n → (1 ≤ n) × (n ≤ maximum_id)
unfolding positive_id
positive_id-bounds raw n h = (ground (arith, h), ground (arith, h))

-- A lookup answers with status 200 exactly if the id is a positive number and the service finds a
-- submission with it.
pub get_submission_iff :
    (find : ℕ → Result SubmissionServiceError (Option SubmissionRecord)) (raw_id : Bytes)
    → ((get_submission find raw_id).status ≡ 200) ↔ (
        (id : ℕ) × (r : SubmissionRecord) × (positive_id raw_id ≡ some id)
        × (find id ≡ ok (some r)))
unfolding get_submission found_response
get_submission_iff find raw_id = elim (Option-cases (positive_id raw_id)) [
  | inl e ↦
      rw (e, get_submission)
        (λ h. absurd (ground (arith, h)), λ (id, r, p, q). absurd (ground (arith, p)))
  | inr (id, e) ↦ elim (Result-cases (find id)) [
    | inr (m, q) ↦
        rw (e, get_submission, q)
          (λ h. absurd (ground (arith, h)), λ (k, r, p, f). absurd (ground (arith, p, f, q)))
    | inl (o, q) ↦ elim (Option-cases o) [
      | inl u ↦
          rw (e, get_submission, q, u)
            (λ h. absurd (ground (arith, h)), λ (k, r, p, f). absurd (ground (arith, p, f, q, u)))
      | inr (r, u) ↦ rw (e, get_submission, q, u) (λ h. (id, r, refl, q ∙ ap ok u), λ h. refl)
    ]
  ]
]

module _ {S : Type 0} (retry : ℕ → ℕ → S → Result RepositoryError SubmissionRecord × S)
    (notify_workers : S → S) where
  -- The repository is asked to retry only for a caller whose session belongs to an administrator and
  -- with a positive id; in every other case nothing changes.
  pub admin_retry_lem :
      (authenticated again : Result AuthError AuthUser) (raw_id : Bytes) (s : S)
      → ((admin_retry_submission retry notify_workers authenticated again raw_id s).1 ≡ s)
        ⊎ ((user admin : AuthUser) × (id : ℕ) × (authenticated ≡ ok user)
            × (user.is_admin ≡ true)
            × (again ≡ ok admin)
            × (positive_id raw_id ≡ some id)
            × (admin_retry_submission retry notify_workers authenticated again raw_id s
                ≡ retry_response retry notify_workers (retry id admin.id s)))
  unfolding admin_retry_submission require_admin
  admin_retry_lem (err e) again raw_id s = inl refl
  admin_retry_lem (ok user) again raw_id s = elim (Bool-cases user.is_admin) [
    | inr t ↦ inl (rw (t, admin_retry_submission) refl)
    | inl t ↦ elim (Option-cases (positive_id raw_id)) [
      | inl e ↦ inl (rw (t, e, admin_retry_submission) refl)
      | inr (id, e) ↦ elim (Result-cases again) [
        | inr (m, q) ↦ inl (rw (t, e, q, admin_retry_submission) refl)
        | inl (admin, q) ↦
            inr (user, admin, id, refl, t, q, e, rw (t, e, q, admin_retry_submission) refl)
      ]
    ]
  ]
