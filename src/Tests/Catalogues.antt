-- ===== src/Tests/Catalogues.antt =====
-- The catalogue of backend/src/sqlite-problem-repository.cpp on a history of calls: a default
-- problem is seeded, an administrator creates a second problem and gives it two tests, of which
-- one is disabled, and updates it.
use trainer.Prelude.{
  ℕ, suc, ◌≡◌, refl, subst, true, false, none, some, Option, List, [], ◌∷◌, ◌++◌, Bytes, codes, ok,
  err,
}
use trainer.Problem.{Problem, ProblemTestCase, easy, hard}
use trainer.Sqlite.{works}
use trainer.Judge.{run as judge_run}
use trainer.Catalogue.{Catalogue, ProblemRepositoryError}
use trainer.Catalogue.Writing.{create, update}
use trainer.Catalogue.Reading.{find_any, tests_of}
use trainer.Catalogue.Seeding.{SeedReplies, seed}
use trainer.Catalogue.Calls.{Call, seeds, creates, removes, creates_test, removes_test, run, empty}
use trainer.Catalogue.Invariant.{Inv, Inv-empty}
use trainer.Catalogue.Preservation.{catalogue_run-Inv}
use trainer.Catalogue.Seeded.{SeedEnds, seed_lem}
use trainer.Catalogue.Reseeding.{seed_twice}
use trainer.Catalogue.Concurrency.{update-no_lost_update}
use trainer.Catalogue.RoundTrip.{ReadsBack, create-find_any, update-find_any}
use trainer.Tests.JsonTrees.{trees, trees-JsonLaws}
use trainer.Tests.Judging.{test_case}

abbrev pub sum : Problem
sum = record {
  id = codes "sum";
  title = codes "A + B";
  description = [];
  input_format = [];
  output_format = [];
  difficulty = easy;
  tags = codes "io" ∷ [];
  languages = codes "python" ∷ codes "cpp" ∷ [];
  examples = record { input = codes "1 2"; output = codes "3" } ∷ [];
  enabled = true;
  revision = 1;
  hidden_tests = test_case (codes "2 2") (codes "4") ∷ [];
}

abbrev pub new_problem : Problem
new_problem = record sum { id = codes "echo"; difficulty = hard; hidden_tests = [] }

abbrev all_work : SeedReplies
all_work = record {
  begins = true;
  prepares = true;
  problem = λ k. true;
  test = λ k n. true;
  commits = true;
}

abbrev visible_test : ProblemTestCase
visible_test = record (test_case (codes "3") (codes "3")) { position = 2 }

abbrev hidden_test : ProblemTestCase
hidden_test = record visible_test { position = 1; enabled = false; expected_output = [] }

abbrev calls : List Call
calls =
    seeds all_work [] (sum ∷ [])
    ∷ creates works [] new_problem
    ∷ creates_test works (codes "echo") visible_test
    ∷ creates_test works (codes "echo") hidden_test
    ∷ []

abbrev pub filled : Catalogue
filled = run trees calls empty

pub filled-Inv : Inv filled
filled-Inv = catalogue_run-Inv trees calls empty Inv-empty

catalogue_run-Inv_example : Inv (run trees calls empty)
catalogue_run-Inv_example = catalogue_run-Inv trees calls empty Inv-empty

seed_lem_example : SeedEnds (sum ∷ []) filled (seed trees all_work [] (sum ∷ []) filled)
seed_lem_example = seed_lem trees [] all_work (sum ∷ []) filled filled-Inv

seeded : Catalogue
seeded = (seed trees all_work [] (sum ∷ []) empty).1

seed_twice_example : (seed trees all_work [] (sum ∷ []) seeded).1 ≡ seeded
unfolding seeded seed trainer.Prelude.count_where trainer.Prelude.bytes_beq
    trainer.Catalogue.Columns.problem_row codes
seed_twice_example = seed_twice trees [] [] all_work all_work (sum ∷ []) empty seeded Inv-empty refl

reads_back : (p : Problem) → ReadsBack trees new_problem
unfolding codes trainer.Catalogue.Columns.column_text
reads_back p = record {
  id = refl;
  title = refl;
  description = refl;
  input_format = refl;
  output_format = refl;
  tags = refl;
  languages = refl;
  examples = refl;
}

create-find_any_example :
    find_any trees works works (codes "echo") (create trees works [] new_problem empty).1
    ≡ ok (some new_problem)
unfolding trainer.Prelude.count_where
create-find_any_example =
    create-find_any trees trees-JsonLaws [] new_problem empty Inv-empty refl (reads_back sum)

update-find_any_example :
    find_any trees works works (codes "echo") (update trees works [] new_problem filled).1
    ≡ ok (
        some
          (record new_problem { revision = 2; hidden_tests = tests_of true (codes "echo") filled }))
unfolding trainer.Prelude.count_where run trainer.Catalogue.Writing.create_test create seed
    trainer.Prelude.bytes_beq codes
update-find_any_example =
    update-find_any trees trees-JsonLaws [] new_problem filled filled-Inv refl (reads_back sum)

abbrev pub between : List Call
between = removes works (codes "sum") ∷ removes_test works (codes "echo") 2 ∷ []

abbrev pub first_update : Catalogue
first_update = (update trees works [] new_problem filled).1

update-no_lost_update_example :
    (e : ProblemRepositoryError) × (update trees works [] new_problem
        (run trees between first_update)
      ≡ (err e, run trees between first_update))
unfolding update trainer.Prelude.count_where run trainer.Catalogue.Writing.create_test create seed
    trainer.Prelude.bytes_beq codes
update-no_lost_update_example =
    update-no_lost_update trees works works [] [] new_problem (record new_problem { revision = 2 })
      new_problem between filled first_update filled-Inv refl (refl, tt) refl refl

-- The disabled test is not run.
enabled_only : tests_of false (codes "echo") filled ≡ record visible_test { id = 2 } ∷ []
unfolding trainer.Prelude.sort_by trainer.Table.select_where run
    trainer.Catalogue.Writing.create_test trainer.Prelude.count_where create seed
    trainer.Prelude.bytes_beq codes trainer.Catalogue.Reading.tests_of
enabled_only = refl
