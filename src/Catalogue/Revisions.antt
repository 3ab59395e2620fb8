-- ===== src/Catalogue/Revisions.antt =====
-- Optimistic concurrency of the administrators' changes: `update` and `update_test` of
-- `SQLiteProblemRepository` (backend/src/sqlite-problem-repository.cpp).
use trainer.Prelude.{
  ℕ, ◌≡◌, refl, sym, ◌∙◌, ap, subst, Bool, true, false, not, ◌&&◌, List, [], ◌∷◌, Bytes, arith,
  nat_eq, byte_eq, bytes_beq, count_where, inl, inr, Bool-cases, leb,
}
use trainer.Problem.{Problem, ProblemTestCase}
use trainer.Sqlite.{Outcome, works, invalid, fails}
use trainer.Table.{count-select_where, count-update_where, count-update_where_exchange, count_mono}
use trainer.Catalogue.{ProblemRow, Catalogue, has_id, has_revision, test_revision, any_where}
use trainer.Catalogue.Columns.{JsonText, problem_row}
use trainer.Catalogue.Writing.{
  remove_problem, remove, create_test, update_test, remove_test, create, updated_row, update,
  admits_test, other_at,
}
use trainer.Catalogue.Seeding.{SeedReplies, seed}
use trainer.Catalogue.Seeded.{stored, seed_lem, unstored_apart}
use trainer.Catalogue.Calls.{
  Call, seeds, creates, updates, removes, creates_test, updates_test, removes_test, step, run,
}
use trainer.Catalogue.Invariant.{Inv, count-insert}
use trainer.Catalogue.Preservation.{step-Inv, apart, select-le}

-- A row of the problem whose revision is at most n.
abbrev pub stale : Bytes → ℕ → ProblemRow → Bool
stale id n r = has_id id r && leb r.revision n

-- The problem is stored, and its revision has passed n.
pub record Past (id : Bytes) (n : ℕ) (db : Catalogue) : Type 0 where
  pub here : stored id db ≡ true
  pub beyond : count_where (stale id n) db.problems ≡ 0

-- The histories that do not remove the problem.
abbrev pub Spares : Bytes → List Call → Type 0
Spares id [] = Unit {0}
Spares id (removes o other ∷ cs) = (bytes_beq other id ≡ false) × Spares id cs
Spares id (_ ∷ cs) = Spares id cs

module _ {J : Type 0} (library : JsonText J) (id : Bytes) (n : ℕ) where
  seed-Past :
      (replies : SeedReplies) (now : Bytes) (defaults : List Problem) (db : Catalogue)
      → Inv db
      → Past id n db
      → Past id n (seed library replies now defaults db).1
  seed-Past replies now defaults db i p = elim (seed_lem library now replies defaults db i) [
    | inl (e, q) ↦ subst (λ x. Past id n x.1) (sym q) p
    | inr (left, q, s) ↦
        subst (λ x. Past id n x.1) (sym q)
          (record {
            here = (s.keeps id p.here).stays;
            beyond = ground (
              arith,
              p.beyond,
              count-select_where (has_id id) (stale id n) db.problems,
              count-select_where (has_id id) (stale id n) left.problems,
              ap (count_where (stale id n)) (s.keeps id p.here).row,
              count_mono (λ r. has_id id r && stale id n r) (stale id n) (λ r h. ground arith)
                  db.problems,
              count_mono (stale id n) (λ r. has_id id r && stale id n r) (λ r h. ground arith)
                  left.problems,
            );
          })
  ]

  create-Past :
      (o : Outcome) (now : Bytes) (problem : Problem) (db : Catalogue)
      → Past id n db
      → Past id n (create library o now problem db).1
  unfolding create problem_row
  create-Past (invalid e) now problem db p = p
  create-Past (fails e) now problem db p = p
  create-Past works now problem db p = elim (Bool-cases (stored problem.id db)) [
    | inl t ↦ rw t p
    | inr t ↦ rw t (record {
      here = ground (
        arith,
        p.here,
        count-insert (has_id id) db.problems
            (problem_row library problem problem.enabled 1 now now),
      );
      beyond = ground (
        arith,
        p.here,
        t,
        p.beyond,
        count-insert (stale id n) db.problems
            (problem_row library problem problem.enabled 1 now now),
        unstored_apart problem.id id db t p.here,
      );
    })
  ]

  update-Past :
      (o : Outcome) (now : Bytes) (problem : Problem) (db : Catalogue)
      → Past id n db
      → Past id n (update library o now problem db).1
  unfolding update updated_row problem_row
  update-Past (invalid e) now problem db p = p
  update-Past (fails e) now problem db p = p
  update-Past works now problem db p =
      elim (Bool-cases (any_where (has_revision problem.id problem.revision) db.problems)) [
        | inr t ↦ rw t p
        | inl t ↦ rw t (record {
          here = ground (
            arith,
            p.here,
            count-update_where (has_revision problem.id problem.revision) (has_id id)
                (updated_row library now problem) (λ r h. refl) db.problems,
          );
          beyond = ground (
            arith,
            p.beyond,
            count-update_where_exchange (has_revision problem.id problem.revision) (stale id n)
                (updated_row library now problem) db.problems,
            count_mono
                (λ r.
                  has_revision problem.id problem.revision r
                  && stale id n (updated_row library now problem r))
                (λ r. has_revision problem.id problem.revision r && stale id n r)
                (λ r h. ground arith) db.problems,
          );
        })
      ]

  remove-Past :
      (o : Outcome) (other : Bytes) (db : Catalogue)
      → bytes_beq other id ≡ false
      → Past id n db
      → Past id n (remove o other db).1
  unfolding remove remove_problem
  remove-Past (invalid e) other db h p = p
  remove-Past (fails e) other db h p = p
  remove-Past works other db h p = record {
    here = ground (
      arith,
      p.here,
      count-select_where (λ r. not (has_id other r)) (has_id id) db.problems,
      count_mono (has_id id) (λ r. not (has_id other r) && has_id id r) (λ r. apart other id r.id h)
          db.problems,
    );
    beyond =
        ground (arith, p.beyond, select-le (λ r. not (has_id other r)) (stale id n) db.problems);
  }

  -- The calls on tests leave the problems alone.
  same_problems-Past :
      {db db' : Catalogue} → db'.problems ≡ db.problems → Past id n db → Past id n db'
  same_problems-Past e p = record {
    here = ap (λ x. any_where (has_id id) x) e ∙ p.here;
    beyond = ap (count_where (stale id n)) e ∙ p.beyond;
  }

create_test-problems :
    (o : Outcome) (problem_id : Bytes) (test : ProblemTestCase) (db : Catalogue)
    → (create_test o problem_id test db).1.problems ≡ db.problems
unfolding create_test
create_test-problems (invalid e) problem_id test db = refl
create_test-problems (fails e) problem_id test db = refl
create_test-problems works problem_id test db =
    elim (Bool-cases (admits_test problem_id test.position db)) [
      | inl t ↦ rw t refl
      | inr t ↦ rw t refl
    ]

update_test-problems :
    (o : Outcome) (problem_id : Bytes) (test : ProblemTestCase) (db : Catalogue)
    → (update_test o problem_id test db).1.problems ≡ db.problems
unfolding update_test
update_test-problems (invalid e) problem_id test db = refl
update_test-problems (fails e) problem_id test db = refl
update_test-problems works problem_id test db =
    elim (Bool-cases (any_where (test_revision problem_id test.id test.revision) db.tests)) [
      | inr t ↦ rw t refl
      | inl t ↦ elim (Bool-cases (any_where (other_at problem_id test) db.tests)) [
        | inl u ↦ rw (t, u) refl
        | inr u ↦ rw (t, u) refl
      ]
    ]

remove_test-problems :
    (o : Outcome) (problem_id : Bytes) (id : ℕ) (db : Catalogue)
    → (remove_test o problem_id id db).1.problems ≡ db.problems
unfolding remove_test
remove_test-problems (invalid e) problem_id id db = refl
remove_test-problems (fails e) problem_id id db = refl
remove_test-problems works problem_id id db = refl

module _ {J : Type 0} (library : JsonText J) where
  pub run-Past :
      (id : Bytes) (n : ℕ) (cs : List Call) (db : Catalogue)
      → Spares id cs
      → Inv db
      → Past id n db
      → Past id n (run library cs db)
  unfolding run step
  run-Past id n [] db s i p = p
  run-Past id n (seeds replies now defaults ∷ cs) db s i p =
      run-Past id n cs _ s (step-Inv library (seeds replies now defaults) db i)
        (seed-Past library id n replies now defaults db i p)
  run-Past id n (creates o now problem ∷ cs) db s i p =
      run-Past id n cs _ s (step-Inv library (creates o now problem) db i)
        (create-Past library id n o now problem db p)
  run-Past id n (updates o now problem ∷ cs) db s i p =
      run-Past id n cs _ s (step-Inv library (updates o now problem) db i)
        (update-Past library id n o now problem db p)
  run-Past id n (removes o other ∷ cs) db s i p =
      run-Past id n cs _ s.1 (step-Inv library (removes o other) db i)
        (remove-Past library id n o other db s.0 p)
  run-Past id n (creates_test o problem_id test ∷ cs) db s i p =
      run-Past id n cs _ s (step-Inv library (creates_test o problem_id test) db i)
        (same_problems-Past library id n (create_test-problems o problem_id test db) p)
  run-Past id n (updates_test o problem_id test ∷ cs) db s i p =
      run-Past id n cs _ s (step-Inv library (updates_test o problem_id test) db i)
        (same_problems-Past library id n (update_test-problems o problem_id test db) p)
  run-Past id n (removes_test o problem_id test ∷ cs) db s i p =
      run-Past id n cs _ s (step-Inv library (removes_test o problem_id test) db i)
        (same_problems-Past library id n (remove_test-problems o problem_id test db) p)
