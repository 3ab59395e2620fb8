-- ===== src/Catalogue/HiddenTests.antt =====
-- The hidden tests that a lookup returns (`read_problem`,
-- backend/src/sqlite-problem-repository.cpp), and the judge on what is stored
-- (backend/src/problem-judge.cpp with `find_for_judging` as its lookup).
use trainer.Prelude.{
  ◌≡◌, ◌≢◌, refl, sym, ap, ◌∙◌, subst, Bool, true, false, ◌&&◌, Option, none, some, List, [], ◌∷◌,
  map, Bytes, codes, arith, nat_eq, byte_eq, bytes_beq, bytes_beq_iff, count_where, sort_by,
  IsSortedBy, sort_by-IsSortedBy, count-sort_by, ok, err, Result, Option-cases, Result-cases,
  Bool-cases, inl, inr,
}
use trainer.Problem.{Problem, ProblemTestCase}
use trainer.Sqlite.{works}
use trainer.Table.{select_where, count-select_where}
use trainer.Catalogue.{ProblemRow, TestRow, Catalogue, ProblemRepositoryError, has_id}
use trainer.Catalogue.Columns.{
  JsonText, column_text, read_row, read_array, read_examples, with_metadata, parse_difficulty,
}
use trainer.Catalogue.Reading.{
  test_before, test_case, wanted_test, tests_of, with_tests, lookup, find_any, first_where, Found,
}
use trainer.Judge.{ExecutionRequest, ExecutorResult, JudgeRequest}
use trainer.Judge.Acceptance.{AllPass}

test_before_asym : (a b : TestRow) → test_before a b ≡ true → test_before b a ≡ false
test_before_asym a b h = ground (arith, h)

-- The tests of a problem that are wanted, each as often as it is stored, by position and id.
pub record Listed (include_disabled : Bool) (id : Bytes) (db : Catalogue)
    (tests : List ProblemTestCase) : Type 0 where
  pub rows : List TestRow
  pub as_cases : tests ≡ map test_case rows
  pub ordered : IsSortedBy test_before rows
  pub complete :
      (test : TestRow → Bool)
      → count_where test rows
        ≡ count_where (λ t. wanted_test include_disabled id t && test t) db.tests

tests_of-Listed :
    (include_disabled : Bool) (id : Bytes) (db : Catalogue)
    → Listed include_disabled id db (tests_of include_disabled id db)
unfolding tests_of
tests_of-Listed include_disabled id db = record {
  rows = sort_by test_before (select_where (wanted_test include_disabled id) db.tests);
  as_cases = refl;
  ordered =
      sort_by-IsSortedBy test_before test_before_asym
        (select_where (wanted_test include_disabled id) db.tests);
  complete = λ test.
      count-sort_by test_before test (select_where (wanted_test include_disabled id) db.tests)
      ∙ count-select_where (wanted_test include_disabled id) test db.tests;
}

module _ {J : Type 0} (library : JsonText J) where
  -- The row of the problem is stored, and its columns are valid.
  pub record Readable (id : Bytes) (db : Catalogue) (problem : Problem) : Type 0 where
    pub row : ProblemRow
    pub stored_row : first_where (has_id id) db.problems ≡ some row
    pub decoded : read_row library row ≡ ok problem
    pub same_id : problem.id ≡ column_text id

  HasRowId : ProblemRow → Result ProblemRepositoryError Problem → Type 0
  HasRowId row (err e) = Unit {0}
  HasRowId row (ok problem) = problem.id ≡ column_text row.id

  read_row-HasRowId : (row : ProblemRow) → HasRowId row (read_row library row)
  unfolding read_row with_metadata HasRowId
  read_row-HasRowId row = elim (Option-cases (parse_difficulty (column_text row.difficulty))) [
    | inl d ↦ rw (read_row, d) tt
    | inr (difficulty, d) ↦ elim (Option-cases (read_array library (column_text row.tags_json))) [
      | inl t ↦ rw (read_row, d, t) tt
      | inr (tags, t) ↦ elim (Option-cases (read_array library (column_text row.languages_json))) [
        | inl l ↦ rw (read_row, d, t, l) tt
        | inr (languages, l) ↦
            elim (Option-cases (read_array library (column_text row.examples_json))) [
              | inl e ↦ rw (read_row, d, t, l, e) tt
              | inr (examples, e) ↦ elim (Option-cases (read_examples library examples)) [
                | inl x ↦ rw (read_row, d, t, l, e, with_metadata, x) tt
                | inr (decoded, x) ↦ rw (read_row, d, t, l, e, with_metadata, x) refl
              ]
            ]
      ]
    ]
  ]

  HasId : Bytes → Option ProblemRow → Type 0
  HasId id none = Unit {0}
  HasId id (some row) = row.id ≡ id

  first_where-HasId :
      (id : Bytes) (rows : List ProblemRow) → HasId id (first_where (has_id id) rows)
  unfolding select_where HasId
  first_where-HasId id [] = tt
  first_where-HasId id (r ∷ rows) = elim (Bool-cases (bytes_beq r.id id)) [
    | inl t ↦ rw t ((bytes_beq_iff r.id id).0 t)
    | inr t ↦ rw t (first_where-HasId id rows)
  ]

  -- What a lookup gives where its statements work: no problem, an error, or a readable one with
  -- its tests.
  pub data LookedUp (include_disabled : Bool) (id : Bytes) (db : Catalogue) : Found → Type 0 where
    absent : first_where (has_id id) db.problems ≡ none → LookedUp include_disabled id db (ok none)
    unreadable :
        (row : ProblemRow) (e : ProblemRepositoryError)
        → first_where (has_id id) db.problems ≡ some row
        → read_row library row ≡ err e
        → LookedUp include_disabled id db (err e)
    present :
        (problem : Problem)
        → Readable id db problem
        → Listed include_disabled
            (column_text id)
            db
            (tests_of include_disabled (column_text id) db)
        → LookedUp include_disabled id db (
            ok (
              some
                (record problem { hidden_tests = tests_of include_disabled (column_text id) db })))

  looked_up :
      (include_disabled : Bool) (id : Bytes) (db : Catalogue) (a b : Bytes)
      → LookedUp include_disabled id db (
          lookup a b works
            (first_where (has_id id) db.problems)
            (λ row. with_tests works include_disabled db (read_row library row)))
  unfolding lookup with_tests HasId HasRowId
  looked_up include_disabled id db a b = elim (Option-cases (first_where (has_id id) db.problems)) [
    | inl n ↦ rw n (absent n)
    | inr (row, f) ↦ elim (Result-cases (read_row library row)) [
      | inr (e, r) ↦ rw (f, r) (unreadable row e f r)
      | inl (problem, r) ↦
          rw (f, r)
            (found problem
              (record { row = row; stored_row = f; decoded = r; same_id = same row problem f r }))
    ]
  ]
    where
      same :
          (row : ProblemRow) (problem : Problem)
          → first_where (has_id id) db.problems ≡ some row
          → read_row library row ≡ ok problem
          → problem.id ≡ column_text id
      same row problem f r =
          subst (HasRowId row) r (read_row-HasRowId row)
          ∙ ap column_text (subst (HasId id) f (first_where-HasId id db.problems))

      found :
          (problem : Problem)
          → Readable id db problem
          → LookedUp include_disabled id db (
              ok (some (record problem { hidden_tests = tests_of include_disabled problem.id db })))
      found problem readable =
          subst
            (λ k.
              LookedUp include_disabled id db
                (ok (some (record problem { hidden_tests = tests_of include_disabled k db }))))
            (sym readable.same_id)
            (present problem readable (tests_of-Listed include_disabled (column_text id) db))

  -- `find_any` gives the disabled tests too.
  pub find_any_lem :
      (id : Bytes) (db : Catalogue) → LookedUp true id db (find_any library works works id db)
  unfolding find_any
  find_any_lem id db =
      looked_up true id db (codes "Could not prepare admin problem lookup")
        (codes "Could not retrieve admin problem")

  -- The lookup that the judge is given: an error is its message.
  abbrev pub judge_lookup : Found → Result Bytes (Option Problem)
  judge_lookup (ok found) = ok found
  judge_lookup (err e) = err e.message

  module _ {S : Type 0} (execute : ExecutionRequest → S → ExecutorResult × S)
      (request : JudgeRequest) where
    pub record Accepted (db : Catalogue) (s : S) : Type 0 where
      pub problem : Problem
      pub readable : Readable request.problem_id db problem
      pub some_test : tests_of false (column_text request.problem_id) db ≢ []
      pub passes : AllPass execute request (tests_of false (column_text request.problem_id) db) s
