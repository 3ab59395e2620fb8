-- ===== src/Catalogue/Reading.antt =====
-- The operations of `SQLiteProblemRepository` that read: `list_enabled`, `list_all`,
-- `find_enabled`, `find_for_judging` and `find_any` (backend/src/sqlite-problem-repository.cpp).
use trainer.Prelude.{
  Bool, true, false, ◌&&◌, ◌||◌, Option, none, some, List, [], ◌∷◌, Bytes, codes, nat_eq, ◌==◌, ltb,
  map, sort_by, Result, ok, err,
}
use trainer.Problem.{Problem, ProblemTestCase}
use trainer.Sqlite.{Outcome, works, invalid, fails}
use trainer.Table.{select_where}
use trainer.Catalogue.{ProblemRow, TestRow, Catalogue, ProblemRepositoryError, has_id, test_of}
use trainer.Catalogue.Columns.{JsonText, repository_error, column_text, read_row}

-- ORDER BY position, id
abbrev pub test_before : TestRow → TestRow → Bool
test_before a b = ltb a.position b.position || (a.position == b.position && ltb a.id b.id)

unfoldable pub test_case : TestRow → ProblemTestCase
unfolding column_text
test_case t = record {
  input = column_text t.input;
  expected_output = column_text t.expected_output;
  id = t.id;
  position = t.position;
  enabled = t.enabled;
  revision = t.revision;
}

-- WHERE problem_id = ?, with AND enabled = 1 unless the disabled tests are included.
abbrev pub wanted_test : Bool → Bytes → TestRow → Bool
wanted_test include_disabled problem_id t = test_of problem_id t && (include_disabled || t.enabled)

unfoldable pub tests_of : Bool → Bytes → Catalogue → List ProblemTestCase
unfolding test_case
tests_of include_disabled problem_id db =
    map test_case
      (sort_by test_before (select_where (wanted_test include_disabled problem_id) db.tests))

-- The end of `read_problem`: the lookup of the hidden tests, with the outcome of its statement.
unfoldable pub with_tests :
    Outcome
    → Bool
    → Catalogue
    → Result ProblemRepositoryError Problem
    → Result ProblemRepositoryError Problem
with_tests o include_disabled db (err e) = err e
with_tests (invalid e) include_disabled db (ok problem) =
    err (repository_error (codes "Could not prepare hidden-test lookup"))
with_tests (fails e) include_disabled db (ok problem) =
    err (repository_error (codes "Could not retrieve hidden tests"))
with_tests works include_disabled db (ok problem) =
    ok (record problem { hidden_tests = tests_of include_disabled problem.id db })

abbrev pub first_where : (ProblemRow → Bool) → List ProblemRow → Option ProblemRow
first_where p rows = first (select_where p rows)
  where
    first : List ProblemRow → Option ProblemRow
    first [] = none
    first (r ∷ rows) = some r

as_option : Result ProblemRepositoryError Problem → Result ProblemRepositoryError (Option Problem)
as_option (err e) = err e
as_option (ok problem) = ok (some problem)

abbrev pub Found : Type 0
Found = Result ProblemRepositoryError (Option Problem)

-- A lookup: the statement on the problems, and the reading of the row that it gives, if any.
unfoldable pub lookup :
    Bytes
    → Bytes
    → Outcome
    → Option ProblemRow
    → (ProblemRow → Result ProblemRepositoryError Problem)
    → Found
unfolding as_option
lookup unprepared failed (invalid e) row read = err (repository_error unprepared)
lookup unprepared failed (fails e) row read = err (repository_error failed)
lookup unprepared failed works none read = ok none
lookup unprepared failed works (some row) read = as_option (read row)

prepended :
    Result ProblemRepositoryError Problem
    → Result ProblemRepositoryError (List Problem)
    → Result ProblemRepositoryError (List Problem)
prepended (err e) rest = err e
prepended (ok problem) (err e) = err e
prepended (ok problem) (ok problems) = ok (problem ∷ problems)

module _ {J : Type 0} (library : JsonText J) where
  -- The loop over the rows.
  unfoldable pub read_rows : List ProblemRow → Result ProblemRepositoryError (List Problem)
  unfolding prepended
  read_rows [] = ok []
  read_rows (r ∷ rows) = prepended (read_row library r) (read_rows rows)

  unfoldable pub list_enabled : Outcome → Catalogue → Result ProblemRepositoryError (List Problem)
  unfolding read_rows
  list_enabled (invalid e) db = err (repository_error (codes "Could not prepare problem list"))
  list_enabled (fails e) db = err (repository_error (codes "Could not retrieve problem list"))
  list_enabled works db = read_rows (select_where (λ r. r.enabled) db.problems)

  unfoldable pub list_all : Outcome → Catalogue → Result ProblemRepositoryError (List Problem)
  unfolding read_rows
  list_all (invalid e) db = err (repository_error (codes "Could not prepare admin problem list"))
  list_all (fails e) db = err (repository_error (codes "Could not retrieve admin problem list"))
  list_all works db = read_rows db.problems

  unfoldable pub find_enabled : Outcome → Bytes → Catalogue → Found
  unfolding lookup
  find_enabled o id db =
      lookup (codes "Could not prepare problem lookup") (codes "Could not retrieve problem") o
        (first_where (λ r. has_id id r && r.enabled) db.problems) (read_row library)

  -- With the outcomes of the lookup and of that of the tests.
  unfoldable pub find_for_judging : Outcome → Outcome → Bytes → Catalogue → Found
  unfolding lookup with_tests
  find_for_judging o tests id db =
      lookup (codes "Could not prepare judge problem lookup")
        (codes "Could not retrieve judge problem") o (first_where (has_id id) db.problems)
        (λ row. with_tests tests false db (read_row library row))

  unfoldable pub find_any : Outcome → Outcome → Bytes → Catalogue → Found
  unfolding lookup with_tests
  find_any o tests id db =
      lookup (codes "Could not prepare admin problem lookup")
        (codes "Could not retrieve admin problem") o (first_where (has_id id) db.problems)
        (λ row. with_tests tests true db (read_row library row))
