-- ===== src/Catalogue/Updating.antt =====
-- What `update` and `update_test` of `SQLiteProblemRepository` leave of the invariant
-- (backend/src/sqlite-problem-repository.cpp).
use trainer.Prelude.{
  ℕ, suc, ◌≤◌, ◌≡◌, refl, subst, Bool, true, false, ◌&&◌, Bytes, arith, nat_eq, byte_eq, bytes_beq,
  bytes_beq_iff, nat_beq, nat_beq_iff, count_where, inl, inr, Bool-cases, some, codes,
}
use trainer.Problem.{
  Problem, ProblemTestCase, easy, medium, hard, difficulty_name, ProblemDifficulty,
}
use trainer.Table.{
  update_where, count-update_where, count-update_where-le, count-update_where_exchange, count-none,
  count-cover,
}
use trainer.Catalogue.{
  TestRow, Catalogue, has_id, has_revision, test_of, test_at, test_revision, any_where,
}
use trainer.Catalogue.Columns.{JsonText, parse_difficulty, problem_row}
use trainer.Catalogue.Writing.{other_at, updated_test, updated_row}
use trainer.Catalogue.Invariant.{Inv, has_test_id, breaks_check, test_breaks_check}

pub parse_difficulty-difficulty_name :
    (d : ProblemDifficulty) → parse_difficulty (difficulty_name d) ≡ some d
unfolding parse_difficulty difficulty_name codes bytes_beq
parse_difficulty-difficulty_name easy = refl
parse_difficulty-difficulty_name medium = refl
parse_difficulty-difficulty_name hard = refl

pub stored_checked :
    {J : Type 0} (library : JsonText J) (problem : Problem) (enabled : Bool) (n : ℕ)
    (created_at updated_at : Bytes)
    → breaks_check (problem_row library problem enabled (suc n) created_at updated_at) ≡ false
unfolding breaks_check problem_row
stored_checked library problem enabled n created_at updated_at =
    ground (arith, parse_difficulty-difficulty_name problem.difficulty)

-- What an update that keeps the ids leaves.
pub updated_row-Inv :
    {J : Type 0} (library : JsonText J) (now : Bytes) (problem : Problem) (db : Catalogue)
    → Inv db
    → Inv (record db {
      problems =
          update_where
            (has_revision problem.id problem.revision)
            (updated_row library now problem)
            db.problems;
    })
unfolding updated_row problem_row breaks_check
updated_row-Inv library now problem db i = record {
  one_row = λ id. ground (arith, i.one_row id, same id);
  one_position = i.one_position;
  owned = λ id h. ground (arith, h, i.owned id, same id);
  one_test = i.one_test;
  fresh = i.fresh;
  checked = ground (
    arith,
    i.checked,
    count-update_where-le (has_revision problem.id problem.revision) breaks_check
        (updated_row library now problem)
        (λ r h. stored_checked library problem problem.enabled r.revision r.created_at now)
        db.problems,
  );
  tests_checked = i.tests_checked;
}
  where
    same :
        (id : Bytes)
        → count_where (has_id id) (
            update_where
              (has_revision problem.id problem.revision)
              (updated_row library now problem)
              db.problems)
          ≡ count_where (has_id id) db.problems
    same id =
        count-update_where (has_revision problem.id problem.revision) (has_id id)
          (updated_row library now problem) (λ r h. refl) db.problems

module _ (problem_id : Bytes) (test : ProblemTestCase) (db : Catalogue)
    (free : any_where (other_at problem_id test) db.tests ≡ false) (i : Inv db) where
  met : TestRow → Bool
  met = test_revision problem_id test.id test.revision

  -- Where the updated test goes, no other test stands.
  moved_here :
      count_where (test_at problem_id test.position) (update_where met (updated_test test) db.tests)
      ≤ 1
  unfolding met
  moved_here = ground (
    arith,
    free,
    i.one_test test.id,
    count-update_where_exchange met (test_at problem_id test.position) (updated_test test) db.tests,
    count-cover (test_at problem_id test.position)
        (λ t. met t && test_at problem_id test.position (updated_test test t)) (has_test_id test.id)
        (λ t. met t && test_at problem_id test.position t) (other_at problem_id test)
        (λ t. ground arith) db.tests,
  )

  elsewhere :
      (id : Bytes) (position : ℕ)
      → (bytes_beq problem_id id && nat_beq test.position position) ≡ false
      → (t : TestRow) → (met t && test_at id position (updated_test test t)) ≡ false
  unfolding met
  elsewhere id position away t = elim (Bool-cases (bytes_beq t.problem_id problem_id)) [
    | inr n ↦ ground (arith, n)
    | inl y ↦ rw ((bytes_beq_iff t.problem_id problem_id).0 y) (ground (arith, away))
  ]

  moved :
      (id : Bytes) (position : ℕ)
      → count_where (test_at id position) (update_where met (updated_test test) db.tests) ≤ 1
  moved id position =
      elim (Bool-cases (bytes_beq problem_id id && nat_beq test.position position)) [
        | inl here ↦
            subst
              (λ k. count_where (test_at id k) (update_where met (updated_test test) db.tests) ≤ 1)
              ((nat_beq_iff test.position position).0 (ground (arith, here)))
              (subst
                (λ k.
                  count_where (test_at k test.position)
                    (update_where met (updated_test test) db.tests)
                  ≤ 1)
                ((bytes_beq_iff problem_id id).0 (ground (arith, here))) moved_here)
        | inr away ↦ ground (
          arith,
          i.one_position id position,
          count-update_where_exchange met (test_at id position) (updated_test test) db.tests,
          count-none (λ t. met t && test_at id position (updated_test test t))
              (elsewhere id position away) db.tests,
        )
      ]

pub updated_test-Inv :
    (problem_id : Bytes) (test : ProblemTestCase) (db : Catalogue)
    → any_where (other_at problem_id test) db.tests ≡ false
    → Inv db
    → Inv (record db {
      tests =
          update_where
            (test_revision problem_id test.id test.revision)
            (updated_test test)
            db.tests;
    })
unfolding met
updated_test-Inv problem_id test db free i = record {
  one_row = i.one_row;
  one_position = moved problem_id test db free i;
  owned = λ id h. ground (arith, i.owned id h, same (test_of id) (λ t m. refl));
  one_test = λ k. ground (arith, i.one_test k, same (has_test_id k) (λ t m. refl));
  fresh = λ k h. ground (arith, i.fresh k h, same (has_test_id k) (λ t m. refl));
  checked = i.checked;
  tests_checked = ground (
    arith,
    i.tests_checked,
    count-update_where-le (test_revision problem_id test.id test.revision) test_breaks_check
        (updated_test test) (λ t m. ground arith) db.tests,
  );
}
  where
    same :
        (q : TestRow → Bool)
        → ((t : TestRow)
            → test_revision problem_id test.id test.revision t ≡ true
            → q (updated_test test t) ≡ q t)
        → count_where q (
            update_where
              (test_revision problem_id test.id test.revision)
              (updated_test test)
              db.tests)
          ≡ count_where q db.tests
    same q keeps =
        count-update_where (test_revision problem_id test.id test.revision) q (updated_test test)
          keeps db.tests
