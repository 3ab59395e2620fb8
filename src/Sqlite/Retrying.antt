-- ===== src/Sqlite/Retrying.antt =====
-- What `SQLiteSubmissionRepository::retry` leaves, with its outcomes.
use trainer.Prelude.{
  ℕ, ◌≡◌, refl, ◌⊎◌, inl, inr, true, Bool-cases, Option-cases, Option, none, some, ◌∷◌, Bytes, ok,
  err,
}
use trainer.Submission.{SubmissionRecord, RepositoryError}
use trainer.Submission.Names.{read_record-columns}
use trainer.Table.{Database, insert_row, find_id}
use trainer.Sqlite.{SubmissionQueueLimits, Outcome, works, invalid, fails, Stored}
use trainer.Sqlite.Retry.{
  RetryOutcomes, retried_row, may_retry, retry_row, retry_audit, retry_insert, retry,
}

-- The database after a retry that is carried out.
abbrev pub retried : Bytes → ℕ → ℕ → SubmissionRecord → Database → Database
retried now id admin original db = record (insert_row (retried_row now db.next_id original) db) {
  audit_log = retry_audit admin id db.next_id ∷ db.audit_log;
}

module _ (limits : SubmissionQueueLimits) (now : Bytes) (id admin : ℕ) (db : Database) where
  -- Refused with an error and no change, or carried out whole on an eligible original.
  abbrev pub Retried : Stored → Type 0
  Retried r =
      (((e : RepositoryError) × (r.0 ≡ err e)) × (r.1 ≡ db))
      ⊎ ((original : SubmissionRecord) × (find_id id db.submissions ≡ some original)
          × (may_retry limits id original db ≡ true)
          × (r.0 ≡ ok (retried_row now db.next_id original))
          × (r.1 ≡ retried now id admin original db))

  retry_works :
      (auditing : Outcome) (commit : Option Bytes) (original : SubmissionRecord)
      → find_id id db.submissions ≡ some original
      → may_retry limits id original db ≡ true
      → Retried (
          retry_insert
            (record { begin = none; insertion = works; auditing = auditing; commit = commit })
            admin
            id
            db
            (some (retried_row now db.next_id original)))
  unfolding retry_insert retried_row
  retry_works (invalid e) commit original found may =
      rw (read_record-columns (retried_row now db.next_id original), retry_insert)
        (inl ((_, refl), refl))
  retry_works (fails e) commit original found may =
      rw (read_record-columns (retried_row now db.next_id original), retry_insert)
        (inl ((_, refl), refl))
  retry_works works (some e) original found may =
      rw (read_record-columns (retried_row now db.next_id original), retry_insert)
        (inl ((_, refl), refl))
  retry_works works none original found may =
      rw (read_record-columns (retried_row now db.next_id original), retry_insert)
        (inr (original, found, may, refl, refl))

  retry_row-cases :
      (retry_row limits now id db ≡ none)
      ⊎ ((original : SubmissionRecord) × (find_id id db.submissions ≡ some original)
          × (may_retry limits id original db ≡ true)
          × (retry_row limits now id db ≡ some (retried_row now db.next_id original)))
  unfolding retry_row
  retry_row-cases = elim (Option-cases (find_id id db.submissions)) [
    | inl e ↦ inl (rw (e, retry_row))
    | inr (original, e) ↦ elim (Bool-cases (may_retry limits id original db)) [
      | inl t ↦ inr (original, e, t, rw (e, retry_row, t))
      | inr t ↦ inl (rw (e, retry_row, t))
    ]
  ]

  retry_outcomes :
      (begin : Option Bytes) (insertion auditing : Outcome) (commit : Option Bytes)
      → Retried (
          retry limits
            (record { begin = begin; insertion = insertion; auditing = auditing; commit = commit })
            now
            id
            admin
            db)
  unfolding retry
  retry_outcomes (some e) insertion auditing commit = inl ((_, refl), refl)
  retry_outcomes none (invalid e) auditing commit = inl ((_, refl), refl)
  retry_outcomes none (fails e) auditing commit = inl ((_, refl), refl)
  retry_outcomes none works auditing commit = elim retry_row-cases [
    | inl e ↦ rw (e, retry) (inl ((_, refl), refl))
    | inr (original, found, may, e) ↦ rw (e, retry) (retry_works auditing commit original found may)
  ]

  -- Whatever the engine does, a retry fails and changes nothing, or succeeds on an eligible
  -- original, with the new row and its audit entry both written.
  pub retry_lem : (o : RetryOutcomes) → Retried (retry limits o now id admin db)
  retry_lem o = retry_outcomes o.begin o.insertion o.auditing o.commit
