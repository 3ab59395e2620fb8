-- ===== src/Table/Rows.antt =====
-- Selections and updates over lists of rows.
use trainer.Prelude.{ℕ, Bool, Option, none, some, List, [], ◌∷◌, nat_eq, ◌==◌, if◌then◌else◌}
use trainer.Submission.{SubmissionRecord}

-- WHERE.
unfoldable pub select_where {ℓ} : {A : Type ℓ} → (A → Bool) → List A → List A
select_where p [] = []
select_where p (x ∷ xs) = let rest = select_where p xs in if p x then x ∷ rest else rest

-- WHERE p ORDER BY id LIMIT 1, on rows newest first.
unfoldable pub oldest_where :
    (SubmissionRecord → Bool) → List SubmissionRecord → Option SubmissionRecord
oldest_where p [] = none
oldest_where p (r ∷ rows) = elim (oldest_where p rows) [
  | some older ↦ some older
  | none ↦ if p r then some r else none
]

-- WHERE id = k.
unfoldable pub find_id : ℕ → List SubmissionRecord → Option SubmissionRecord
find_id k [] = none
find_id k (r ∷ rows) = if r.id == k then some r else find_id k rows

-- UPDATE ... SET f WHERE p.
unfoldable pub update_where {ℓ} : {A : Type ℓ} → (A → Bool) → (A → A) → List A → List A
update_where p f [] = []
update_where p f (r ∷ rows) = (if p r then f r else r) ∷ update_where p f rows

-- UPDATE ... SET f WHERE id = k.
unfoldable pub update_id :
    ℕ → (SubmissionRecord → SubmissionRecord) → List SubmissionRecord → List SubmissionRecord
update_id k f [] = []
update_id k f (r ∷ rows) = (if r.id == k then f r else r) ∷ update_id k f rows
