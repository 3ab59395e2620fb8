-- ===== src/Worker/Held.antt =====
-- The submissions that workers hold, and what the repository's operations leave of a running row
-- that they are not about.
use trainer.Prelude.{
  ℕ, ◌≡◌, ◌≢◌, refl, sym, ◌∙◌, inl, inr, true, Option, some, List, [], ◌∷◌, ◌++◌, Bytes, arith,
}
use trainer.Submission.{Verdict, SubmissionRecord, is_running}
use trainer.Table.{Database, IdsBelow, insert_row, find_id, find_id-lt, find_id-update_id_ne}
use trainer.Sqlite.{Outcome, works, invalid, fails, finish_row, complete, fail}
use trainer.Sqlite.Finishing.{finish_row_lem}
use trainer.Prelude.{false, subst}

-- The row `id` is stored and marked as running.
abbrev pub Running : Database → ℕ → Type 0
Running db id =
    (r : SubmissionRecord) × (find_id id db.submissions ≡ some r) × (is_running r.status ≡ true)

abbrev pub AllRunning : Database → List ℕ → Type 0
AllRunning db [] = Unit {0}
AllRunning db (id ∷ ids) = Running db id × AllRunning db ids

abbrev pub IsNew : ℕ → List ℕ → Type 0
IsNew id [] = Unit {0}
IsNew id (j ∷ ids) = (j ≢ id) × IsNew id ids

abbrev pub IsDistinct : List ℕ → Type 0
IsDistinct [] = Unit {0}
IsDistinct (id ∷ ids) = IsNew id ids × IsDistinct ids

pub AllRunning-drop :
    (db : Database) (id : ℕ) (before after : List ℕ)
    → AllRunning db (before ++ (id ∷ after))
    → AllRunning db (before ++ after)
AllRunning-drop db id [] after h = h.1
AllRunning-drop db id (j ∷ before) after h = (h.0, AllRunning-drop db id before after h.1)

pub IsNew-drop :
    (k id : ℕ) (before after : List ℕ)
    → IsNew k (before ++ (id ∷ after))
    → IsNew k (before ++ after)
IsNew-drop k id [] after h = h.1
IsNew-drop k id (j ∷ before) after h = (h.0, IsNew-drop k id before after h.1)

pub new_at : (k id : ℕ) (before after : List ℕ) → IsNew k (before ++ (id ∷ after)) → id ≢ k
new_at k id [] after h = h.0
new_at k id (j ∷ before) after h = new_at k id before after h.1

pub IsDistinct-drop :
    (id : ℕ) (before after : List ℕ)
    → IsDistinct (before ++ (id ∷ after))
    → IsDistinct (before ++ after)
IsDistinct-drop id [] after h = h.1
IsDistinct-drop id (j ∷ before) after h =
    (IsNew-drop j id before after h.0, IsDistinct-drop id before after h.1)

pub IsDistinct-IsNew :
    (id : ℕ) (before after : List ℕ)
    → IsDistinct (before ++ (id ∷ after))
    → IsNew id (before ++ after)
IsDistinct-IsNew id [] after h = h.0
IsDistinct-IsNew id (j ∷ before) after h =
    (λ e. new_at j id before after h.0 (sym e), IsDistinct-IsNew id before after h.1)

pub AllRunning-keep :
    (db left : Database) (k : ℕ) (ids : List ℕ)
    → ((j : ℕ) → j ≢ k → Running db j → Running left j)
    → IsNew k ids
    → AllRunning db ids
    → AllRunning left ids
AllRunning-keep db left k [] f n h = tt
AllRunning-keep db left k (j ∷ ids) f n h = (f j n.0 h.0, AllRunning-keep db left k ids f n.1 h.1)

pub AllRunning-map :
    (db left : Database) (ids : List ℕ)
    → ((j : ℕ) → Running db j → Running left j)
    → AllRunning db ids
    → AllRunning left ids
AllRunning-map db left [] f h = tt
AllRunning-map db left (j ∷ ids) f h = (f j h.0, AllRunning-map db left ids f h.1)

-- A row that is not running is held by nobody.
pub idle_IsNew :
    (db : Database) (k : ℕ) (x : SubmissionRecord) (ids : List ℕ)
    → find_id k db.submissions ≡ some x
    → is_running x.status ≡ false
    → AllRunning db ids
    → IsNew k ids
idle_IsNew db k x [] e f h = tt
idle_IsNew db k x (j ∷ ids) e f ((r, found, t), h) = (
  λ same. ground (arith, subst (λ i. find_id i db.submissions ≡ some r) same found),
  idle_IsNew db k x ids e f h,
)

pub finish_row-Running :
    (j k : ℕ) (f : SubmissionRecord → SubmissionRecord) (db : Database)
    → ((x : SubmissionRecord) → (f x).id ≡ x.id)
    → j ≢ k
    → Running db j
    → Running (finish_row k f db).1 j
finish_row-Running j k f db keeps ne (r, found, t) = elim (finish_row_lem k f db) [
  | inl (refused, same, idle) ↦ rw same (r, found, t)
  | inr (x, there, busy, result, left) ↦
      rw left (r, find_id-update_id_ne k f keeps j db.submissions ne ∙ found, t)
]

pub complete-Running :
    (o : Outcome) (now : Bytes) (j k : ℕ) (verdict : Verdict) (error_type : Option Bytes)
    (db : Database)
    → j ≢ k
    → Running db j
    → Running (complete o now k verdict error_type db).1 j
unfolding complete
complete-Running (invalid e) now j k verdict error_type db ne h = h
complete-Running (fails e) now j k verdict error_type db ne h = h
complete-Running works now j k verdict error_type db ne h =
    finish_row-Running j k _ db (λ x. refl) ne h

pub fail-Running :
    (o : Outcome) (now : Bytes) (j k : ℕ) (error_type : Option Bytes) (db : Database)
    → j ≢ k
    → Running db j
    → Running (fail o now k error_type db).1 j
unfolding fail
fail-Running (invalid e) now j k error_type db ne h = h
fail-Running (fails e) now j k error_type db ne h = h
fail-Running works now j k error_type db ne h = finish_row-Running j k _ db (λ x. refl) ne h

pub insert-Running :
    (j : ℕ) (row : SubmissionRecord) (db : Database)
    → IdsBelow db.next_id db.submissions
    → row.id ≡ db.next_id
    → Running db j
    → Running (insert_row row db) j
unfolding insert_row find_id
insert-Running j row db b e (r, found, t) =
    (r, ground (arith, find_id-lt j db.next_id db.submissions r b found), t)
