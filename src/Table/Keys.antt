-- ===== src/Table/Keys.antt =====
-- Rows with distinct ids: what an update by id does to a count, and to a lookup.
use trainer.Prelude.{
  ℕ, ◌+◌, ◌≤◌, ◌<◌, ◌≡◌, ◌≢◌, refl, Bool, none, some, List, [], ◌∷◌, nat_eq, ◌==◌, arith,
  if◌then◌else◌, count_where, count_one, inl, inr, Bool-cases,
}
use trainer.Submission.{SubmissionRecord}
use trainer.Table.Rows.{find_id, update_id, update_where}

-- Ids fall along the rows and stay below the bound.
abbrev pub IdsBelow : ℕ → List SubmissionRecord → Type 0
IdsBelow n [] = Unit {0}
IdsBelow n (r ∷ rows) = (r.id < n) × IdsBelow r.id rows

pub IdsBelow-mono :
    (m n : ℕ) (rows : List SubmissionRecord) → m ≤ n → IdsBelow m rows → IdsBelow n rows
IdsBelow-mono m n [] h b = tt
IdsBelow-mono m n (r ∷ rows) h b = (omega arith, b.1)

pub find_id_above :
    (k n : ℕ) (rows : List SubmissionRecord) → IdsBelow n rows → n ≤ k → find_id k rows ≡ none
unfolding find_id
find_id_above k n [] b h = refl
find_id_above k n (r ∷ rows) b h = ground (arith, find_id_above k r.id rows b.1)

pub find_id-id :
    (k : ℕ) (rows : List SubmissionRecord) (r : SubmissionRecord)
    → find_id k rows ≡ some r
    → r.id ≡ k
unfolding find_id
find_id-id k [] r h = cc
find_id-id k (x ∷ rows) r h = ground (arith, find_id-id k rows r)

pub find_id-lt :
    (k n : ℕ) (rows : List SubmissionRecord) (r : SubmissionRecord)
    → IdsBelow n rows
    → find_id k rows ≡ some r
    → k < n
unfolding find_id
find_id-lt k n [] r b h = cc
find_id-lt k n (x ∷ rows) r b h = ground (arith, find_id-lt k x.id rows r b.1)

-- An update that keeps the ids is seen by a lookup.
pub find_id-update_where :
    (p : SubmissionRecord → Bool) (f : SubmissionRecord → SubmissionRecord)
    (keeps : (r : SubmissionRecord) → (f r).id ≡ r.id) (j : ℕ) (rows : List SubmissionRecord)
    → find_id j (update_where p f rows)
      ≡ (elim (find_id j rows) [ none ↦ none | some r ↦ some (if p r then f r else r) ])
unfolding update_where find_id
find_id-update_where p f keeps j [] = refl
find_id-update_where p f keeps j (x ∷ rows) =
    ground (arith, keeps x, find_id-update_where p f keeps j rows)

module _ (k : ℕ) (f : SubmissionRecord → SubmissionRecord) where
  pub update_id_above :
      (n : ℕ) (rows : List SubmissionRecord) → IdsBelow n rows → n ≤ k → update_id k f rows ≡ rows
  unfolding update_id
  update_id_above n [] b h = refl
  update_id_above n (r ∷ rows) b h = ground (arith, update_id_above r.id rows b.1)

  pub update_id-IdsBelow :
      (keeps : (r : SubmissionRecord) → (f r).id ≡ r.id) (n : ℕ) (rows : List SubmissionRecord)
      → IdsBelow n rows
      → IdsBelow n (update_id k f rows)
  unfolding update_id
  update_id-IdsBelow keeps n [] b = tt
  update_id-IdsBelow keeps n (r ∷ rows) b =
      ground (arith, keeps r, update_id-IdsBelow keeps r.id rows b.1)

  -- Of the row itself the count takes the old test away and adds the new one.
  pub count-update_id :
      (p : SubmissionRecord → Bool) (n : ℕ) (rows : List SubmissionRecord) (r : SubmissionRecord)
      → IdsBelow n rows
      → find_id k rows ≡ some r
      → count_where p (update_id k f rows) + count_one (p r)
        ≡ count_where p rows + count_one (p (f r))
  unfolding update_id find_id count_where
  count-update_id p n [] r b h = cc
  count-update_id p n (x ∷ rows) r b h = elim (Bool-cases (x.id == k)) [
    | inl e ↦ ground (arith, e, update_id_above x.id rows b.1)
    | inr e ↦ ground (arith, e, count-update_id p x.id rows r b.1)
  ]

  pub find_id-update_id :
      (keeps : (r : SubmissionRecord) → (f r).id ≡ r.id) (j : ℕ) (rows : List SubmissionRecord)
      → find_id j (update_id k f rows)
        ≡ (elim (find_id j rows) [ none ↦ none | some r ↦ some (if r.id == k then f r else r) ])
  unfolding update_id find_id
  find_id-update_id keeps j [] = refl
  find_id-update_id keeps j (x ∷ rows) = ground (arith, keeps x, find_id-update_id keeps j rows)

  pub find_id-update_id_ne :
      (keeps : (r : SubmissionRecord) → (f r).id ≡ r.id) (j : ℕ) (rows : List SubmissionRecord)
      → j ≢ k
      → find_id j (update_id k f rows) ≡ find_id j rows
  unfolding update_id find_id
  find_id-update_id_ne keeps j [] ne = refl
  find_id-update_id_ne keeps j (x ∷ rows) ne =
      ground (arith, keeps x, find_id-update_id_ne keeps j rows)
