-- ===== src/Catalogue/Writing.antt =====
-- The operations of `SQLiteProblemRepository` that change a table: `create`, `update`, `remove`,
-- `create_test`, `update_test` and `remove_test` (backend/src/sqlite-problem-repository.cpp). Each
-- takes the outcome of its statement; a statement that breaks a constraint of the tables fails
-- too, and changes nothing.
use trainer.Prelude.{
  ℕ, suc, Bool, ◌&&◌, not, [], ◌∷◌, ◌++◌, Bytes, codes, nat_eq, byte_eq, ◌==◌, if◌then◌else◌,
  Result, ok, err,
}
use trainer.Problem.{Problem, ProblemTestCase}
use trainer.Sqlite.{Outcome, works, invalid, fails}
use trainer.Table.{select_where, update_where}
use trainer.Catalogue.{
  ProblemRow, TestRow, Catalogue, ProblemRepositoryError, has_id, has_revision, test_of, test_at,
  test_in, test_revision, any_where,
}
use trainer.Catalogue.Columns.{JsonText, repository_error, problem_row}

abbrev pub Written : Type 0 → Type 0
Written A = Result ProblemRepositoryError A × Catalogue

-- DELETE FROM problems WHERE id = ?, and the tests with it.
unfoldable pub remove_problem : Bytes → Catalogue → Catalogue
remove_problem id db = record db {
  problems = select_where (λ r. not (has_id id r)) db.problems;
  tests = select_where (λ t. not (test_of id t)) db.tests;
}

unfoldable pub remove : Outcome → Bytes → Catalogue → Written Bool
unfolding remove_problem
remove (invalid e) id db = (err (repository_error (codes "Could not prepare problem deletion")), db)
remove (fails e) id db = (err (repository_error (codes "Problem could not be deleted")), db)
remove works id db = (ok (any_where (has_id id) db.problems), remove_problem id db)

-- The row that INSERT INTO problem_tests writes.
abbrev pub test_row : Bytes → ProblemTestCase → Bool → ℕ → TestRow
test_row problem_id test enabled id = record {
  id = id;
  problem_id = problem_id;
  input = test.input;
  expected_output = test.expected_output;
  position = test.position;
  enabled = enabled;
  revision = 1;
}

-- The foreign key and the unique position.
unfoldable pub admits_test : Bytes → ℕ → Catalogue → Bool
admits_test problem_id position db =
    any_where (has_id problem_id) db.problems
    && not (any_where (test_at problem_id position) db.tests)

abbrev pub insert_test : TestRow → Catalogue → Catalogue
insert_test t db = record db { tests = db.tests ++ (t ∷ []); next_test_id = suc db.next_test_id }

unfoldable pub create_test : Outcome → Bytes → ProblemTestCase → Catalogue → Written ProblemTestCase
unfolding admits_test
create_test (invalid e) problem_id test db =
    (err (repository_error (codes "Could not prepare hidden-test creation")), db)
create_test (fails e) problem_id test db =
    (err (repository_error (codes "Hidden test could not be created")), db)
create_test works problem_id test db =
    if admits_test problem_id test.position db
    then (
      ok (record test { id = db.next_test_id }),
      insert_test (test_row problem_id test test.enabled db.next_test_id) db,
    )
    else (err (repository_error (codes "Hidden test could not be created")), db)

-- UPDATE problem_tests SET ...
abbrev pub updated_test : ProblemTestCase → TestRow → TestRow
updated_test test t = record t {
  input = test.input;
  expected_output = test.expected_output;
  position = test.position;
  enabled = test.enabled;
  revision = suc t.revision;
}

-- Another test of the problem stands at the position already.
abbrev pub other_at : Bytes → ProblemTestCase → TestRow → Bool
other_at problem_id test t = test_at problem_id test.position t && not (t.id == test.id)

unfoldable pub update_test : Outcome → Bytes → ProblemTestCase → Catalogue → Written ProblemTestCase
update_test (invalid e) problem_id test db =
    (err (repository_error (codes "Could not prepare hidden-test update")), db)
update_test (fails e) problem_id test db =
    (err (repository_error (codes "Hidden test could not be updated")), db)
update_test works problem_id test db =
    if not (any_where (test_revision problem_id test.id test.revision) db.tests)
    then (err (repository_error (codes "Hidden test was changed by another administrator")), db)
    else if any_where (other_at problem_id test) db.tests
    then (err (repository_error (codes "Hidden test could not be updated")), db)
    else (
      ok (record test { revision = suc test.revision }),
      record db {
        tests =
            update_where (test_revision problem_id test.id test.revision) (updated_test test)
              db.tests;
      },
    )

unfoldable pub remove_test : Outcome → Bytes → ℕ → Catalogue → Written Bool
remove_test (invalid e) problem_id id db =
    (err (repository_error (codes "Could not prepare hidden-test deletion")), db)
remove_test (fails e) problem_id id db =
    (err (repository_error (codes "Hidden test could not be deleted")), db)
remove_test works problem_id id db = (
  ok (any_where (test_in problem_id id) db.tests),
  record db { tests = select_where (λ t. not (test_in problem_id id t)) db.tests },
)

abbrev pub insert_problem : ProblemRow → Catalogue → Catalogue
insert_problem r db = record db { problems = db.problems ++ (r ∷ []) }

module _ {J : Type 0} (library : JsonText J) where
  unfoldable pub create : Outcome → Bytes → Problem → Catalogue → Written Problem
  unfolding problem_row
  create (invalid e) now problem db =
      (err (repository_error (codes "Could not prepare problem creation")), db)
  create (fails e) now problem db =
      (err (repository_error (codes "Problem could not be created")), db)
  create works now problem db =
      if any_where (has_id problem.id) db.problems
      then (err (repository_error (codes "Problem could not be created")), db)
      else (ok problem, insert_problem (problem_row library problem problem.enabled 1 now now) db)

  -- UPDATE problems SET ...
  unfoldable pub updated_row : Bytes → Problem → ProblemRow → ProblemRow
  unfolding problem_row
  updated_row now problem r =
      record (problem_row library problem problem.enabled (suc r.revision) r.created_at now) {
        id = r.id;
      }

  unfoldable pub update : Outcome → Bytes → Problem → Catalogue → Written Problem
  unfolding updated_row
  update (invalid e) now problem db =
      (err (repository_error (codes "Could not prepare problem update")), db)
  update (fails e) now problem db =
      (err (repository_error (codes "Problem could not be updated")), db)
  update works now problem db =
      if any_where (has_revision problem.id problem.revision) db.problems
      then (
        ok (record problem { revision = suc problem.revision }),
        record db {
          problems =
              update_where (has_revision problem.id problem.revision) (updated_row now problem)
                db.problems;
        },
      )
      else (err (repository_error (codes "Problem was changed by another administrator")), db)
