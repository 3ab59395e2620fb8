-- ===== src/Catalogue/Calls.antt =====
-- Histories of calls of `SQLiteProblemRepository` that may change the tables, each with the
-- outcomes of its statements (backend/include/algorithm-trainer/problem-repository.h).
use trainer.Prelude.{ℕ, List, [], ◌∷◌, Bytes}
use trainer.Problem.{Problem, ProblemTestCase}
use trainer.Sqlite.{Outcome}
use trainer.Catalogue.{Catalogue}
use trainer.Catalogue.Columns.{JsonText}
use trainer.Catalogue.Writing.{create, update, remove, create_test, update_test, remove_test}
use trainer.Catalogue.Seeding.{SeedReplies, seed}

pub data Call : Type 0 where
  seeds : SeedReplies → Bytes → List Problem → Call
  creates updates : Outcome → Bytes → Problem → Call
  removes : Outcome → Bytes → Call
  creates_test updates_test : Outcome → Bytes → ProblemTestCase → Call
  removes_test : Outcome → Bytes → ℕ → Call

module _ {J : Type 0} (library : JsonText J) where
  -- The tables that a call leaves.
  unfoldable pub step : Call → Catalogue → Catalogue
  step (seeds replies now defaults) db = (seed library replies now defaults db).1
  step (creates o now problem) db = (create library o now problem db).1
  step (updates o now problem) db = (update library o now problem db).1
  step (removes o id) db = (remove o id db).1
  step (creates_test o problem_id test) db = (create_test o problem_id test db).1
  step (updates_test o problem_id test) db = (update_test o problem_id test db).1
  step (removes_test o problem_id id) db = (remove_test o problem_id id db).1

  unfoldable pub run : List Call → Catalogue → Catalogue
  unfolding step
  run [] db = db
  run (c ∷ cs) db = run cs (step c db)

abbrev pub empty : Catalogue
empty = record { problems = []; tests = []; next_test_id = 1 }
