-- ===== src/Table/Counts.antt =====
-- Counts and predicates over rows that an update does not touch.
use trainer.Prelude.{
  ℕ, ◌≡◌, Bool, true, List, [], ◌∷◌, arith, nat_eq, ◌==◌, some, inl, inr, Bool-cases,
}
use trainer.Submission.{SubmissionRecord}
use trainer.Table.Rows.{update_where, update_id, find_id}
use trainer.Table.Keys.{update_id_above, IdsBelow}

abbrev pub All : (SubmissionRecord → Type 0) → List SubmissionRecord → Type 0
All P [] = Unit {0}
All P (r ∷ rows) = P r × All P rows

module _ (P : SubmissionRecord → Type 0) where
  pub All-find_id :
      (k : ℕ) (rows : List SubmissionRecord) (r : SubmissionRecord)
      → All P rows
      → find_id k rows ≡ some r
      → P r
  unfolding find_id
  All-find_id k [] r h e = cc
  All-find_id k (x ∷ rows) r h e = elim (Bool-cases (x.id == k)) [
    | inl t ↦ subst_some x r h.0 (ground (arith, t))
    | inr t ↦ All-find_id k rows r h.1 (ground (arith, t))
  ]
    where
      subst_some : (a b : SubmissionRecord) → P a → a ≡ b → P b
      subst_some a b pa ab = rw ab at pa

  -- Ids are distinct, so an update by id changes the row that is found and no other.
  pub All-update_id :
      (k n : ℕ) (f : SubmissionRecord → SubmissionRecord) (rows : List SubmissionRecord)
      (r : SubmissionRecord)
      → IdsBelow n rows
      → find_id k rows ≡ some r
      → All P rows
      → P (f r)
      → All P (update_id k f rows)
  unfolding update_id find_id
  All-update_id k n f [] r b e h new = cc
  All-update_id k n f (x ∷ rows) r b e h new = elim (Bool-cases (x.id == k)) [
    | inl t ↦
        rw (t, update_id_above k f x.id rows b.1 (ground (arith, t)))
          (rw (same_some x r (ground (arith, t))) new, h.1)
    | inr t ↦ rw t (h.0, All-update_id k x.id f rows r b.1 (ground (arith, t)) h.1 new)
  ]
    where
      same_some : (a b : SubmissionRecord) → some a ≡ some b → a ≡ b
      same_some a b p = cc

  pub All-update_where :
      (p : SubmissionRecord → Bool) (f : SubmissionRecord → SubmissionRecord)
      (keeps : (r : SubmissionRecord) → P r → p r ≡ true → P (f r)) (rows : List SubmissionRecord)
      → All P rows
      → All P (update_where p f rows)
  unfolding update_where
  All-update_where p f keeps [] h = tt
  All-update_where p f keeps (r ∷ rows) h = elim (Bool-cases (p r)) [
    | inl e ↦ rw e (keeps r h.0 e, All-update_where p f keeps rows h.1)
    | inr e ↦ rw e (h.0, All-update_where p f keeps rows h.1)
  ]

module _ (p : SubmissionRecord → Bool) (f : SubmissionRecord → SubmissionRecord) where
  pub update_where-IdsBelow :
      (keeps : (r : SubmissionRecord) → (f r).id ≡ r.id) (n : ℕ) (rows : List SubmissionRecord)
      → IdsBelow n rows
      → IdsBelow n (update_where p f rows)
  unfolding update_where
  update_where-IdsBelow keeps n [] b = tt
  update_where-IdsBelow keeps n (r ∷ rows) b =
      ground (arith, keeps r, update_where-IdsBelow keeps r.id rows b.1)
