-- ===== src/Sqlite/Reads.antt =====
-- The queries of `SQLiteSubmissionRepository` that read submissions: `find`, `history`, `list_all`
-- and `list_filtered` (backend/src/sqlite-submission-repository.cpp).
use trainer.Prelude.{
  ℕ, ◌+◌, Bool, true, false, ◌&&◌, ◌||◌, not, ltb, leb, Option, none, some, List, [], ◌∷◌, Bytes,
  codes, nat_eq, sort_by, option_nat_eq, byte_eq, ◌==◌, nat_beq, bytes_beq, take, if◌then◌else◌,
  Result, ok, err,
}
use trainer.Submission.{
  SubmissionStatus, SubmissionRecord, RepositoryError, plain_error, submission_status_name,
}
use trainer.Submission.Columns.{columns, read_record, stored_status}
use trainer.Table.{Database, select_where, find_id}
use trainer.Sqlite.{Outcome, works, invalid, fails, database_error}

-- The text comparison of the engine: byte by byte.
unfoldable pub bytes_ltb : Bytes → Bytes → Bool
bytes_ltb [] [] = false
bytes_ltb [] (d ∷ ds) = true
bytes_ltb (c ∷ cs) [] = false
bytes_ltb (c ∷ cs) (d ∷ ds) = ltb c d || (nat_beq c d && bytes_ltb cs ds)

-- ORDER BY created_at DESC, id DESC: `a` stands before `b`.
unfoldable pub newer : SubmissionRecord → SubmissionRecord → Bool
newer a b =
    bytes_ltb b.created_at a.created_at || (bytes_beq a.created_at b.created_at && ltb b.id a.id)

abbrev pub newest_first : List SubmissionRecord → List SubmissionRecord
newest_first rows = sort_by newer rows

onto :
    Result RepositoryError SubmissionRecord
    → Result RepositoryError (List SubmissionRecord)
    → Result RepositoryError (List SubmissionRecord)
onto (err e) rest = err e
onto (ok r) (err e) = err e
onto (ok r) (ok rows) = ok (r ∷ rows)

-- The loop that decodes the rows up to the end.
unfoldable pub read_records : List SubmissionRecord → Result RepositoryError (List SubmissionRecord)
unfolding onto
read_records [] = ok []
read_records (r ∷ rows) = onto (read_record (columns r)) (read_records rows)

-- A query that returns rows; a step that fails gives an error with what the query was for.
unfoldable pub query :
    Bytes → Outcome → List SubmissionRecord → Result RepositoryError (List SubmissionRecord)
unfolding database_error read_records
query operation (invalid e) rows = err (plain_error e)
query operation (fails e) rows = err (database_error operation e)
query operation works rows = read_records rows

found : Result RepositoryError SubmissionRecord → Result RepositoryError (Option SubmissionRecord)
found (ok r) = ok (some r)
found (err e) = err e

unfoldable pub find : Outcome → ℕ → Database → Result RepositoryError (Option SubmissionRecord)
unfolding database_error found
find (invalid e) id db = err (plain_error e)
find (fails e) id db = err (database_error (codes "Could not retrieve submission") e)
find works id db = elim (find_id id db.submissions) [
  | none ↦ ok none
  | some r ↦ found (read_record (columns r))
]

-- WHERE user_id = ? AND problem_id = ?
unfoldable pub in_history : ℕ → Bytes → SubmissionRecord → Bool
in_history user problem_id r = (r.user_id == some user) && (r.problem_id == problem_id)

unfoldable pub history :
    Outcome → ℕ → Bytes → Database → Result RepositoryError (List SubmissionRecord)
unfolding query in_history
history o user problem_id db =
    query (codes "Could not retrieve submission history") o
      (newest_first (select_where (in_history user problem_id) db.submissions))

unfoldable pub list_all : Outcome → Database → Result RepositoryError (List SubmissionRecord)
unfolding query
list_all o db = query (codes "Could not retrieve submissions") o (newest_first db.submissions)

-- backend/include/algorithm-trainer/submission-repository.h
pub record SubmissionAdminFilter : Type 0 where
  pub status : Option SubmissionStatus
  pub error_type : Option Bytes
  pub language : Option Bytes
  pub problem_id : Option Bytes
  pub user_id : Option ℕ
  pub created_from : Option Bytes
  pub created_to : Option Bytes

-- `std::tolower` on the first character.
unfoldable pub lower_first : Bytes → Bytes
lower_first [] = []
lower_first (c ∷ cs) = (if leb b'A' c && leb c b'Z' then c + 32 else c) ∷ cs

-- The value that is bound for the status.
unfoldable pub status_parameter : SubmissionStatus → Bytes
unfolding lower_first
status_parameter status = lower_first (submission_status_name status)

abbrev pub equals : Option Bytes → Option Bytes → Bool
equals wanted none = false
equals wanted (some text) = elim wanted [ none ↦ false | some w ↦ text == w ]

-- A clause that is added where the filter has a value.
abbrev pub clause : {A : Type 0} → Option A → (A → Bool) → Bool
clause none test = true
clause (some value) test = test value

-- The WHERE clause that is built from the filter.
unfoldable pub matches : SubmissionAdminFilter → SubmissionRecord → Bool
unfolding status_parameter
matches filter r =
    clause filter.status (λ status. bytes_beq (stored_status r.status) (status_parameter status))
    && (clause filter.error_type (λ error_type. equals (some error_type) r.error_type)
        && (clause filter.language (λ language. bytes_beq r.language language)
            && (clause filter.problem_id (λ problem_id. bytes_beq r.problem_id problem_id)
                && (clause filter.user_id (λ user. r.user_id == some user)
                    && (clause filter.created_from (λ from. not (bytes_ltb r.created_at from))
                        && clause filter.created_to (λ to. not (bytes_ltb to r.created_at)))))))

unfoldable pub list_filtered :
    Outcome → SubmissionAdminFilter → Database → Result RepositoryError (List SubmissionRecord)
unfolding query matches
list_filtered o filter db =
    query (codes "Could not filter submissions") o
      (take 500 (newest_first (select_where (matches filter) db.submissions)))
