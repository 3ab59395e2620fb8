-- ===== src/Catalogue/Seeded.antt =====
-- What `seed` leaves (backend/src/sqlite-problem-repository.cpp).
use trainer.Prelude.{
  ℕ, suc, ◌≡◌, refl, ◌∙◌, ap, ◌⊎◌, Bool, true, false, List, [], ◌∷◌, ◌++◌, Bytes, arith, nat_eq,
  byte_eq, bytes_beq, bytes_beq_iff, count_where, inl, inr, Bool-cases, ok, err, Result,
}
use trainer.Problem.{Problem, ProblemTestCase}
use trainer.Table.{select_where}
use trainer.Catalogue.{TestRow, Catalogue, ProblemRepositoryError, has_id, test_of, any_where}
use trainer.Catalogue.Columns.{JsonText, problem_row}
use trainer.Catalogue.Writing.{admits_test, insert_test, test_row}
use trainer.Catalogue.Seeding.{
  SeedReplies, seed_tests, seed_problem, seed_problems, seed_end, seed, seed_row,
}
use trainer.Catalogue.Invariant.{Inv, insert_problem-Inv, insert_test-Inv, count-insert}
use trainer.Catalogue.Updating.{stored_checked}

abbrev pub stored : Bytes → Catalogue → Bool
stored id db = any_where (has_id id) db.problems

-- A problem that was stored is stored still, its row and its tests as they were.
pub record Kept (id : Bytes) (db db' : Catalogue) : Type 0 where
  pub stays : stored id db' ≡ true
  pub row : select_where (has_id id) db'.problems ≡ select_where (has_id id) db.problems
  pub tests : select_where (test_of id) db'.tests ≡ select_where (test_of id) db.tests

abbrev pub Keeps : Catalogue → Catalogue → Type 0
Keeps db db' = (id : Bytes) → stored id db ≡ true → Kept id db db'

abbrev pub AllStored : List Problem → Catalogue → Type 0
AllStored [] db = Unit {0}
AllStored (p ∷ ps) db = (stored p.id db ≡ true) × AllStored ps db

Keeps-refl : (db : Catalogue) → Keeps db db
Keeps-refl db id h = record { stays = h; row = refl; tests = refl }

Keeps-trans : {a b c : Catalogue} → Keeps a b → Keeps b c → Keeps a c
Keeps-trans f g id h =
    let x = f id h in
    let y = g id x.stays in
    record { stays = y.stays; row = y.row ∙ x.row; tests = y.tests ∙ x.tests }

AllStored-Keeps :
    (ps : List Problem) {db db' : Catalogue} → Keeps db db' → AllStored ps db → AllStored ps db'
AllStored-Keeps [] k h = tt
AllStored-Keeps (p ∷ ps) k h = ((k p.id h.0).stays, AllStored-Keeps ps k h.1)

select-insert :
    {A : Type 0} (p : A → Bool) (xs : List A) (x : A)
    → p x ≡ false
    → select_where p (xs ++ (x ∷ [])) ≡ select_where p xs
unfolding select_where
select-insert p [] x h = rw h refl
select-insert p (y ∷ xs) x h = rw (select-insert p xs x h) refl

-- What holds of the tables that a loop gives, if it gives any.
abbrev pub Gives : (Catalogue → Type 0) → Result ProblemRepositoryError Catalogue → Type 0
Gives P (err e) = Unit {0}
Gives P (ok db) = P db

-- The insertion of tests of one problem.
record Filled (problem_id : Bytes) (db db' : Catalogue) : Type 0 where
  inv : Inv db'
  problems : db'.problems ≡ db.problems
  others :
      (id : Bytes)
      → bytes_beq problem_id id ≡ false
      → select_where (test_of id) db'.tests ≡ select_where (test_of id) db.tests

-- The tests are inserted behind those that are stored, and for the problem only.
seed_tests-Filled :
    (replies : ℕ → Bool) (problem_id : Bytes) (index : ℕ) (tests : List ProblemTestCase)
    (db : Catalogue)
    → Inv db
    → Gives (Filled problem_id db) (seed_tests replies problem_id index tests db)
unfolding seed_tests
seed_tests-Filled replies problem_id index [] db i = record {
  inv = i;
  problems = refl;
  others = λ id h. refl;
}
seed_tests-Filled replies problem_id index (test ∷ tests) db i = elim (Bool-cases (replies index)) [
  | inr t ↦ rw t tt
  | inl t ↦ elim (Bool-cases (admits_test problem_id index db)) [
    | inr u ↦ rw (t, u) tt
    | inl u ↦
        rw (t, u)
          (onwards (seed_tests replies problem_id (suc index) tests next) (
            seed_tests-Filled replies problem_id (suc index) tests next
              (insert_test-Inv row db u refl (ground arith) i)))
  ]
]
  where
    row : TestRow
    row = test_row problem_id (record test { position = index }) true db.next_test_id

    next : Catalogue
    next = insert_test row db

    onwards :
        (r : Result ProblemRepositoryError Catalogue)
        → Gives (Filled problem_id next) r
        → Gives (Filled problem_id db) r
    onwards (err e) f = tt
    onwards (ok left) f = record {
      inv = f.inv;
      problems = f.problems;
      others = λ id h. f.others id h ∙ select-insert (test_of id) db.tests row h;
    }

pub unstored_apart :
    (a b : Bytes) (db : Catalogue)
    → stored a db ≡ false
    → stored b db ≡ true
    → bytes_beq a b ≡ false
unstored_apart a b db h k = elim (Bool-cases (bytes_beq a b)) [
  | inr t ↦ t
  | inl t ↦ absurd (cc (ap (λ x. stored x db) ((bytes_beq_iff a b).0 t)))
]

pub record Seeds (ps : List Problem) (db db' : Catalogue) : Type 0 where
  pub inv : Inv db'
  pub keeps : Keeps db db'
  pub all : AllStored ps db'

module _ {J : Type 0} (library : JsonText J) (now : Bytes) where
  seed_row-Seeds :
      (problem : Problem) (db : Catalogue)
      → stored problem.id db ≡ false
      → (r : Result ProblemRepositoryError Catalogue)
      → Gives (Filled problem.id (seed_row library now problem db)) r
      → Gives (Seeds (problem ∷ []) db) r
  unfolding problem_row
  seed_row-Seeds problem db new (err e) f = tt
  seed_row-Seeds problem db new (ok left) f = record {
    inv = f.inv;
    keeps = λ id h. record {
      stays = ground (
        arith,
        h,
        ap (count_where (has_id id)) f.problems,
        count-insert (has_id id) db.problems (problem_row library problem true 1 now now),
      );
      row =
          ap (select_where (has_id id)) f.problems
          ∙ select-insert (has_id id) db.problems _ (unstored_apart problem.id id db new h);
      tests = f.others id (unstored_apart problem.id id db new h);
    };
    all = (
      ground (
        arith,
        ap (count_where (has_id problem.id)) f.problems,
        count-insert (has_id problem.id) db.problems (problem_row library problem true 1 now now),
        (bytes_beq_iff problem.id problem.id).1 refl,
      ),
      tt,
    );
  }

  seed_problem-Seeds :
      (inserts : Bool) (tests : ℕ → Bool) (problem : Problem) (db : Catalogue)
      → Inv db
      → Gives (Seeds (problem ∷ []) db) (seed_problem library inserts tests now problem db)
  unfolding seed_problem problem_row
  seed_problem-Seeds false tests problem db i = tt
  seed_problem-Seeds true tests problem db i = elim (Bool-cases (stored problem.id db)) [
    | inl t ↦ rw t (record { inv = i; keeps = Keeps-refl db; all = (t, tt) })
    | inr t ↦ rw t (
        seed_row-Seeds problem db t _ (
          seed_tests-Filled tests problem.id 0 problem.hidden_tests
            (seed_row library now problem db)
            (insert_problem-Inv (problem_row library problem true 1 now now) db t
              (stored_checked library problem true 0 now now) i)))
  ]

  then-Seeds :
      (problem : Problem) (problems : List Problem) (db next : Catalogue)
      → Seeds (problem ∷ []) db next
      → (r : Result ProblemRepositoryError Catalogue) → Gives (Seeds problems next) r
      → Gives (Seeds (problem ∷ problems) db) r
  then-Seeds problem problems db next s (err e) g = tt
  then-Seeds problem problems db next s (ok left) g = record {
    inv = g.inv;
    keeps = Keeps-trans s.keeps g.keeps;
    all = ((g.keeps problem.id s.all.0).stays, g.all);
  }

  seed_problems-Seeds :
      (replies : SeedReplies) (index : ℕ) (problems : List Problem) (db : Catalogue)
      → Inv db
      → Gives (Seeds problems db) (seed_problems library replies now index problems db)
  unfolding seed_problems
  seed_problems-Seeds replies index [] db i = record { inv = i; keeps = Keeps-refl db; all = tt }
  seed_problems-Seeds replies index (problem ∷ problems) db i =
      go (seed_problem library (replies.problem index) (replies.test index) now problem db)
        (seed_problem-Seeds (replies.problem index) (replies.test index) problem db i)
        (λ next n. seed_problems-Seeds replies (suc index) problems next n)
    where
      go :
          (r : Result ProblemRepositoryError Catalogue)
          → Gives (Seeds (problem ∷ []) db) r
          → ((next : Catalogue)
              → Inv next
              → Gives
                  (Seeds problems next)
                  (seed_problems library replies now (suc index) problems next))
          → Gives (Seeds (problem ∷ problems) db) (elim r [
            | err e ↦ err e
            | ok seeded ↦ seed_problems library replies now (suc index) problems seeded
          ])
      go (err e) s rest = tt
      go (ok next) s rest = then-Seeds problem problems db next s _ (rest next s.inv)

-- A transaction fails and changes nothing, or seeds the problems.
abbrev pub SeedEnds :
    List Problem → Catalogue → Result ProblemRepositoryError (Unit {0}) × Catalogue → Type 0
SeedEnds default_problems db answer =
    ((e : ProblemRepositoryError) × (answer ≡ (err e, db)))
    ⊎ ((db' : Catalogue) × (answer ≡ (ok tt, db')) × Seeds default_problems db db')

seed_end-SeedEnds :
    {J : Type 0} (library : JsonText J) (commits : Bool) (default_problems : List Problem)
    (db : Catalogue) (r : Result ProblemRepositoryError Catalogue)
    → Gives (Seeds default_problems db) r
    → SeedEnds default_problems db (seed_end library commits db r)
unfolding seed_end
seed_end-SeedEnds library commits default_problems db (err e) s = inl (e, refl)
seed_end-SeedEnds library true default_problems db (ok left) s = inr (left, refl, s)
seed_end-SeedEnds library false default_problems db (ok left) s = inl (_, refl)

-- Where the tables satisfy the invariant, `seed` fails and changes nothing, or the invariant holds
-- still, each problem that was stored keeps its row and its tests, and every default problem is
-- stored.
pub seed_lem :
    {J : Type 0} (library : JsonText J) (now : Bytes) (replies : SeedReplies)
    (default_problems : List Problem) (db : Catalogue)
    → Inv db
    → SeedEnds default_problems db (seed library replies now default_problems db)
unfolding seed
seed_lem library now replies default_problems db i = elim (Bool-cases replies.begins) [
  | inr b ↦ rw b (inl (_, refl))
  | inl b ↦ elim (Bool-cases replies.prepares) [
    | inr p ↦ rw (b, p) (inl (_, refl))
    | inl p ↦
        rw (b, p)
          (seed_end-SeedEnds library replies.commits default_problems db _
            (seed_problems-Seeds library now replies 0 default_problems db i))
  ]
]
