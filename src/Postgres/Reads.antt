-- ===== src/Postgres/Reads.antt =====
-- The queries of `PostgreSQLSubmissionRepository` that read submissions: `find`, `history`,
-- `list_all` and `list_filtered` (backend/src/postgresql-submission-repository.cpp).
-- The server's comparison of time stamps is an argument.
use trainer.Prelude.{
  ℕ, Bool, ◌&&◌, ◌||◌, not, ltb, Option, none, some, List, [], ◌∷◌, Bytes, codes, nat_eq,
  option_nat_eq, byte_eq, ◌==◌, bytes_beq, sort_by, take, map, Result, ok, err,
}
use trainer.Submission.{SubmissionRecord, RepositoryError}
use trainer.Submission.Columns.{Columns, columns, stored_status}
use trainer.Table.{Database, select_where, find_id}
use trainer.Sqlite.Reads.{SubmissionAdminFilter, in_history, status_parameter, equals, clause}
use trainer.Postgres.{Reply, failure}
use trainer.Postgres.Decoding.{record_of}

onto :
    Result RepositoryError SubmissionRecord
    → Result RepositoryError (List SubmissionRecord)
    → Result RepositoryError (List SubmissionRecord)
onto (err e) rest = err e
onto (ok r) (err e) = err e
onto (ok r) (ok rows) = ok (r ∷ rows)

-- The loop over the rows.
unfoldable pub decoded : List Columns → Result RepositoryError (List SubmissionRecord)
unfolding onto
decoded [] = ok []
decoded (row ∷ rows) = onto (record_of row) (decoded rows)

unfoldable pub records :
    Reply → List SubmissionRecord → Result RepositoryError (List SubmissionRecord)
unfolding failure decoded
records (some message) rows = err (failure (codes "Could not retrieve submissions") message)
records none rows = decoded (map columns rows)

found : Result RepositoryError SubmissionRecord → Result RepositoryError (Option SubmissionRecord)
found (ok r) = ok (some r)
found (err e) = err e

unfoldable pub find : Reply → ℕ → Database → Result RepositoryError (Option SubmissionRecord)
unfolding failure found
find (some message) id db = err (failure (codes "Could not retrieve submission") message)
find none id db = elim (find_id id db.submissions) [
  | none ↦ ok none
  | some r ↦ found (record_of (columns r))
]

module _ (earlier : Bytes → Bytes → Bool) where
  -- ORDER BY created_at DESC, id DESC: `a` stands before `b`.
  unfoldable pub newer : SubmissionRecord → SubmissionRecord → Bool
  newer a b =
      earlier b.created_at a.created_at
      || (not (earlier a.created_at b.created_at) && ltb b.id a.id)

  abbrev newest_first : List SubmissionRecord → List SubmissionRecord
  newest_first rows = sort_by newer rows

  unfoldable pub history :
      Reply → ℕ → Bytes → Database → Result RepositoryError (List SubmissionRecord)
  unfolding records in_history newer sort_by
  history r user problem_id db =
      records r (newest_first (select_where (in_history user problem_id) db.submissions))

  unfoldable pub list_all : Reply → Database → Result RepositoryError (List SubmissionRecord)
  unfolding records newer sort_by
  list_all r db = records r (newest_first db.submissions)

  -- The WHERE clause that `add` builds up.
  unfoldable pub matches : SubmissionAdminFilter → SubmissionRecord → Bool
  unfolding status_parameter stored_status
  matches filter r =
      clause filter.status (λ status. bytes_beq (stored_status r.status) (status_parameter status))
      && (clause filter.error_type (λ error_type. equals (some error_type) r.error_type)
          && (clause filter.language (λ language. bytes_beq r.language language)
              && (clause filter.problem_id (λ problem_id. bytes_beq r.problem_id problem_id)
                  && (clause filter.user_id (λ user. r.user_id == some user)
                      && (clause filter.created_from (λ from. not (earlier r.created_at from))
                          && clause filter.created_to (λ to. not (earlier to r.created_at)))))))

  unfoldable pub list_filtered :
      Reply → SubmissionAdminFilter → Database → Result RepositoryError (List SubmissionRecord)
  unfolding records matches newer sort_by
  list_filtered r filter db =
      records r (take 500 (newest_first (select_where (matches filter) db.submissions)))
