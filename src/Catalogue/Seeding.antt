-- ===== src/Catalogue/Seeding.antt =====
-- `seed` (backend/src/sqlite-problem-repository.cpp): the problems that the program brings along
-- are inserted unless a problem with their id is stored, in one transaction.
use trainer.Prelude.{
  ℕ, suc, Bool, true, not, List, [], ◌∷◌, Bytes, codes, if◌then◌else◌, Result, ok, err,
}
use trainer.Problem.{Problem, ProblemTestCase}
use trainer.Catalogue.{Catalogue, ProblemRepositoryError, has_id, any_where}
use trainer.Catalogue.Columns.{JsonText, repository_error, problem_row}
use trainer.Catalogue.Writing.{Written, insert_problem, test_row, insert_test, admits_test}

-- Which statements of the transaction the engine carries out: the insertion of a problem is named
-- by its index, that of a test by the problem's index and its own.
pub record SeedReplies : Type 0 where
  pub begins : Bool
  pub prepares : Bool
  pub problem : ℕ → Bool
  pub test : ℕ → ℕ → Bool
  pub commits : Bool

-- The loop over the tests of a problem.
unfoldable pub seed_tests :
    (ℕ → Bool)
    → Bytes
    → ℕ
    → List ProblemTestCase
    → Catalogue
    → Result ProblemRepositoryError Catalogue
unfolding admits_test
seed_tests replies problem_id index [] db = ok db
seed_tests replies problem_id index (test ∷ tests) db =
    let rest = seed_tests replies problem_id (suc index) tests (
      insert_test (test_row problem_id (record test { position = index }) true db.next_test_id)
        db) in
    if not (replies index)
    then err (repository_error (codes "Could not seed initial hidden tests"))
    else if not (admits_test problem_id index db)
    then err (repository_error (codes "Could not seed initial hidden tests"))
    else rest

module _ {J : Type 0} (library : JsonText J) where
  abbrev pub seed_row : Bytes → Problem → Catalogue → Catalogue
  seed_row now problem db = insert_problem (problem_row library problem true 1 now now) db

  -- One problem: INSERT OR IGNORE, and the tests where it changed anything.
  unfoldable pub seed_problem :
      Bool → (ℕ → Bool) → Bytes → Problem → Catalogue → Result ProblemRepositoryError Catalogue
  unfolding seed_tests
  seed_problem inserts tests now problem db =
      if not inserts
      then err (repository_error (codes "Could not seed initial problem"))
      else if any_where (has_id problem.id) db.problems
      then ok db
      else seed_tests tests problem.id 0 problem.hidden_tests (seed_row now problem db)

  -- The loop over the problems.
  unfoldable pub seed_problems :
      SeedReplies → Bytes → ℕ → List Problem → Catalogue → Result ProblemRepositoryError Catalogue
  unfolding seed_problem
  seed_problems replies now index [] db = ok db
  seed_problems replies now index (problem ∷ problems) db =
      elim (seed_problem (replies.problem index) (replies.test index) now problem db) [
        | err e ↦ err e
        | ok seeded ↦ seed_problems replies now (suc index) problems seeded
      ]

  -- The end of the transaction: rolled back where a statement failed.
  unfoldable pub seed_end :
      Bool → Catalogue → Result ProblemRepositoryError Catalogue → Written (Unit {0})
  seed_end commits db (err e) = (err e, db)
  seed_end commits db (ok seeded) =
      if commits
      then (ok tt, seeded)
      else (err (repository_error (codes "Could not commit initial problem data")), db)

  unfoldable pub seed : SeedReplies → Bytes → List Problem → Catalogue → Written (Unit {0})
  unfolding seed_problems seed_end
  seed replies now default_problems db =
      if not replies.begins
      then (err (repository_error (codes "Could not begin initial problem transaction")), db)
      else if not replies.prepares
      then (err (repository_error (codes "Could not prepare initial problem data")), db)
      else seed_end replies.commits db (seed_problems replies now 0 default_problems db)
