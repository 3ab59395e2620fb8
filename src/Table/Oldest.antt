-- ===== src/Table/Oldest.antt =====
-- The oldest row with a property, `WHERE p ORDER BY id LIMIT 1`.
use trainer.Prelude.{ℕ, ◌≤◌, ◌<◌, ◌≡◌, Bool, true, false, none, some, List, [], ◌∷◌, arith}
use trainer.Submission.{SubmissionRecord}
use trainer.Table.Rows.{oldest_where, find_id}
use trainer.Table.Keys.{IdsBelow}

-- The oldest row with a property has it, and is found by its id.
pub oldest_where-holds :
    (p : SubmissionRecord → Bool) (rows : List SubmissionRecord) (r : SubmissionRecord)
    → oldest_where p rows ≡ some r
    → p r ≡ true
unfolding oldest_where
oldest_where-holds p [] r h = cc
oldest_where-holds p (x ∷ rows) r h = ground (arith, oldest_where-holds p rows r)

pub oldest_where-below :
    (p : SubmissionRecord → Bool) (n : ℕ) (rows : List SubmissionRecord) (r : SubmissionRecord)
    → IdsBelow n rows
    → oldest_where p rows ≡ some r
    → r.id < n
unfolding oldest_where
oldest_where-below p n [] r b h = cc
oldest_where-below p n (x ∷ rows) r b h = ground (arith, oldest_where-below p x.id rows r b.1)

pub find_id-oldest_where :
    (p : SubmissionRecord → Bool) (n : ℕ) (rows : List SubmissionRecord) (r : SubmissionRecord)
    → IdsBelow n rows
    → oldest_where p rows ≡ some r
    → find_id r.id rows ≡ some r
unfolding oldest_where find_id
find_id-oldest_where p n [] r b h = cc
find_id-oldest_where p n (x ∷ rows) r b h =
    ground (arith, find_id-oldest_where p x.id rows r b.1, oldest_where-below p x.id rows r b.1)

pub oldest_where-none :
    (p : SubmissionRecord → Bool) (k : ℕ) (rows : List SubmissionRecord) (s : SubmissionRecord)
    → oldest_where p rows ≡ none
    → find_id k rows ≡ some s
    → p s ≡ false
unfolding oldest_where find_id
oldest_where-none p k [] s h e = cc
oldest_where-none p k (x ∷ rows) s h e = ground (arith, oldest_where-none p k rows s)

-- It is the oldest: no row with the property has a smaller id.
pub oldest_where-least :
    (p : SubmissionRecord → Bool) (n k : ℕ) (rows : List SubmissionRecord) (r s : SubmissionRecord)
    → IdsBelow n rows
    → oldest_where p rows ≡ some r
    → find_id k rows ≡ some s
    → p s ≡ true
    → r.id ≤ s.id
unfolding oldest_where find_id
oldest_where-least p n k [] r s b h e t = cc
oldest_where-least p n k (x ∷ rows) r s b h e t = ground (
  arith,
  oldest_where-least p x.id k rows r s b.1,
  oldest_where-below p x.id rows r b.1,
  oldest_where-none p k rows s,
)
