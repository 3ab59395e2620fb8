-- ===== src/Catalogue/Preservation.antt =====
-- The operations of `SQLiteProblemRepository` on tables that satisfy the invariant.
use trainer.Prelude.{
  ℕ, ◌≤◌, ◌≡◌, refl, sym, subst, Bool, true, false, not, ◌&&◌, List, [], ◌∷◌, Bytes, arith, nat_eq,
  byte_eq, bytes_beq, bytes_beq_iff, count_where, inl, inr, Bool-cases,
}
use trainer.Problem.{Problem, ProblemTestCase}
use trainer.Sqlite.{Outcome, works, invalid, fails}
use trainer.Table.{select_where, count-select_where, count_mono, count-none}
use trainer.Catalogue.{
  TestRow, Catalogue, has_id, has_revision, test_of, test_at, test_in, test_revision, any_where,
}
use trainer.Catalogue.Columns.{JsonText}
use trainer.Catalogue.Writing.{
  remove_problem, remove, admits_test, create_test, other_at, update_test, remove_test, create,
  update, test_row,
}
use trainer.Catalogue.Updating.{updated_row-Inv, updated_test-Inv, stored_checked}
use trainer.Catalogue.Seeding.{SeedReplies, seed}
use trainer.Catalogue.Seeded.{seed_lem}
use trainer.Catalogue.Calls.{
  Call, seeds, creates, updates, removes, creates_test, updates_test, removes_test, step, run,
}
use trainer.Catalogue.Invariant.{
  Inv, has_test_id, breaks_check, test_breaks_check, insert_problem-Inv, insert_test-Inv,
}

-- A selection leaves no more of anything.
pub select-le :
    {A : Type 0} (p q : A → Bool) (rows : List A)
    → count_where q (select_where p rows) ≤ count_where q rows
select-le p q rows =
    ground (
      arith,
      count-select_where p q rows,
      count_mono (λ r. p r && q r) q (λ r h. ground arith) rows,
    )

-- Removing the tests that pass a test.
tests-Inv :
    (p : TestRow → Bool) (db : Catalogue)
    → Inv db
    → Inv (record db { tests = select_where p db.tests })
tests-Inv p db i = record {
  one_row = i.one_row;
  one_position = λ id position.
      ground (arith, i.one_position id position, select-le p (test_at id position) db.tests);
  owned = λ id h. ground (arith, i.owned id h, select-le p (test_of id) db.tests);
  one_test = λ k. ground (arith, i.one_test k, select-le p (has_test_id k) db.tests);
  fresh = λ k h. ground (arith, i.fresh k h, select-le p (has_test_id k) db.tests);
  checked = i.checked;
  tests_checked = ground (arith, i.tests_checked, select-le p test_breaks_check db.tests);
}

-- Two ids that are not the same name different rows.
pub apart :
    (a b c : Bytes)
    → bytes_beq a b ≡ false
    → bytes_beq c b ≡ true
    → (not (bytes_beq c a) && bytes_beq c b) ≡ true
apart a b c h k = elim (Bool-cases (bytes_beq c a)) [
  | inl t ↦
      absurd
        (ground (arith, h, k, t, subst (λ x. bytes_beq x b ≡ true) ((bytes_beq_iff c a).0 t) k))
  | inr t ↦ ground (arith, t, k)
]

gone : (a b c : Bytes) → bytes_beq a b ≡ true → (not (bytes_beq c a) && bytes_beq c b) ≡ false
gone a b c h = rw ((bytes_beq_iff a b).0 h) (ground arith)

-- A removed problem leaves no test, and one that stays keeps its row.
removed_owned :
    (id other : Bytes) (db : Catalogue)
    → Inv db
    → count_where (has_id other) (remove_problem id db).problems ≡ 0
    → count_where (test_of other) (remove_problem id db).tests ≡ 0
unfolding remove_problem
removed_owned id other db i h = elim (Bool-cases (bytes_beq id other)) [
  | inl t ↦ ground (
    arith,
    count-select_where (λ x. not (test_of id x)) (test_of other) db.tests,
    count-none (λ x. not (test_of id x) && test_of other x) (λ x. gone id other x.problem_id t)
        db.tests,
  )
  | inr t ↦ ground (
    arith,
    h,
    select-le (λ x. not (test_of id x)) (test_of other) db.tests,
    i.owned other,
    count-select_where (λ r. not (has_id id r)) (has_id other) db.problems,
    count_mono (has_id other) (λ r. not (has_id id r) && has_id other r)
        (λ r. apart id other r.id t) db.problems,
  )
]

remove_problem-Inv : (id : Bytes) (db : Catalogue) → Inv db → Inv (remove_problem id db)
unfolding remove_problem
remove_problem-Inv id db i = record {
  one_row = λ other.
      ground
        (arith, i.one_row other, select-le (λ r. not (has_id id r)) (has_id other) db.problems);
  one_position = less.one_position;
  owned = λ other h. removed_owned id other db i h;
  one_test = less.one_test;
  fresh = less.fresh;
  checked = ground (arith, i.checked, select-le (λ r. not (has_id id r)) breaks_check db.problems);
  tests_checked = less.tests_checked;
}
  where
    less : Inv (record db { tests = select_where (λ t. not (test_of id t)) db.tests })
    less = tests-Inv (λ t. not (test_of id t)) db i

module _ {J : Type 0} (library : JsonText J) where
  create-Inv :
      (o : Outcome) (now : Bytes) (problem : Problem) (db : Catalogue)
      → Inv db
      → Inv (create library o now problem db).1
  unfolding create
  create-Inv (invalid e) now problem db i = i
  create-Inv (fails e) now problem db i = i
  create-Inv works now problem db i =
      elim (Bool-cases (any_where (has_id problem.id) db.problems)) [
        | inl t ↦ rw t i
        | inr t ↦
            rw t (
              insert_problem-Inv _ db t (stored_checked library problem problem.enabled 0 now now)
                i)
      ]

  update-Inv :
      (o : Outcome) (now : Bytes) (problem : Problem) (db : Catalogue)
      → Inv db
      → Inv (update library o now problem db).1
  unfolding update
  update-Inv (invalid e) now problem db i = i
  update-Inv (fails e) now problem db i = i
  update-Inv works now problem db i =
      elim (Bool-cases (any_where (has_revision problem.id problem.revision) db.problems)) [
        | inl t ↦ rw t (updated_row-Inv library now problem db i)
        | inr t ↦ rw t i
      ]

remove-Inv : (o : Outcome) (id : Bytes) (db : Catalogue) → Inv db → Inv (remove o id db).1
unfolding remove
remove-Inv (invalid e) id db i = i
remove-Inv (fails e) id db i = i
remove-Inv works id db i = remove_problem-Inv id db i

create_test-Inv :
    (o : Outcome) (problem_id : Bytes) (test : ProblemTestCase) (db : Catalogue)
    → Inv db
    → Inv (create_test o problem_id test db).1
unfolding create_test
create_test-Inv (invalid e) problem_id test db i = i
create_test-Inv (fails e) problem_id test db i = i
create_test-Inv works problem_id test db i =
    elim (Bool-cases (admits_test problem_id test.position db)) [
      | inl t ↦ rw t (
          insert_test-Inv (test_row problem_id test test.enabled db.next_test_id) db t refl
            (ground arith) i)
      | inr t ↦ rw t i
    ]

update_test-Inv :
    (o : Outcome) (problem_id : Bytes) (test : ProblemTestCase) (db : Catalogue)
    → Inv db
    → Inv (update_test o problem_id test db).1
unfolding update_test
update_test-Inv (invalid e) problem_id test db i = i
update_test-Inv (fails e) problem_id test db i = i
update_test-Inv works problem_id test db i =
    elim (Bool-cases (any_where (test_revision problem_id test.id test.revision) db.tests)) [
      | inr t ↦ rw t i
      | inl t ↦ elim (Bool-cases (any_where (other_at problem_id test) db.tests)) [
        | inl u ↦ rw (t, u) i
        | inr u ↦ rw (t, u) (updated_test-Inv problem_id test db u i)
      ]
    ]

remove_test-Inv :
    (o : Outcome) (problem_id : Bytes) (id : ℕ) (db : Catalogue)
    → Inv db
    → Inv (remove_test o problem_id id db).1
unfolding remove_test
remove_test-Inv (invalid e) problem_id id db i = i
remove_test-Inv (fails e) problem_id id db i = i
remove_test-Inv works problem_id id db i = tests-Inv (λ t. not (test_in problem_id id t)) db i

seed_end-Inv :
    {J : Type 0} (library : JsonText J) (now : Bytes) (replies : SeedReplies)
    (defaults : List Problem) (db : Catalogue)
    → Inv db
    → Inv (seed library replies now defaults db).1
seed_end-Inv library now replies defaults db i = elim (seed_lem library now replies defaults db i) [
  | inl (e, q) ↦ subst (λ x. Inv x.1) (sym q) i
  | inr (left, q, s) ↦ subst (λ x. Inv x.1) (sym q) s.inv
]

module _ {J : Type 0} (library : JsonText J) where
  pub step-Inv : (c : Call) (db : Catalogue) → Inv db → Inv (step library c db)
  unfolding step
  step-Inv (seeds replies now defaults) db i = seed_end-Inv library now replies defaults db i
  step-Inv (creates o now problem) db i = create-Inv library o now problem db i
  step-Inv (updates o now problem) db i = update-Inv library o now problem db i
  step-Inv (removes o id) db i = remove-Inv o id db i
  step-Inv (creates_test o problem_id test) db i = create_test-Inv o problem_id test db i
  step-Inv (updates_test o problem_id test) db i = update_test-Inv o problem_id test db i
  step-Inv (removes_test o problem_id id) db i = remove_test-Inv o problem_id id db i

  -- Every history of calls of the repository, whatever its statements' outcomes, preserves the
  -- invariant of the catalogue: ids are unique, a test belongs to a stored problem, no two tests of
  -- a problem stand at one position, revisions are positive and difficulties are known.
  pub catalogue_run-Inv : (cs : List Call) (db : Catalogue) → Inv db → Inv (run library cs db)
  unfolding run
  catalogue_run-Inv [] db i = i
  catalogue_run-Inv (c ∷ cs) db i = catalogue_run-Inv cs (step library c db) (step-Inv c db i)
