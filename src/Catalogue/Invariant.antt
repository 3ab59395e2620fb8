-- ===== src/Catalogue/Invariant.antt =====
-- The constraints of the tables `problems` and `problem_tests`, and the insertions that respect
-- them (migrations/007-create-problems.sql and 008-add-admin-operations.sql).
use trainer.Prelude.{
  ℕ, ◌+◌, ◌≤◌, ◌≡◌, refl, Bool, true, false, ◌||◌, Option, none, some, List, [], ◌∷◌, ◌++◌, Bytes,
  arith, nat_eq, byte_eq, ◌==◌, bytes_beq, bytes_beq_iff, nat_beq, nat_beq_iff, count_where,
  count_one, ltb,
}
use trainer.Table.{count-append}
use trainer.Catalogue.{ProblemRow, TestRow, Catalogue, has_id, test_of, test_at, any_where}
use trainer.Catalogue.Columns.{parse_difficulty}
use trainer.Catalogue.Writing.{insert_problem, insert_test, admits_test}
use trainer.Catalogue.Calls.{empty}

abbrev pub has_test_id : ℕ → TestRow → Bool
has_test_id k t = t.id == k

is_unread : {A : Type 0} → Option A → Bool
is_unread none = true
is_unread (some a) = false

-- CHECK (revision > 0) AND CHECK (difficulty IN ('Easy', 'Medium', 'Hard')), refused.
unfoldable pub breaks_check : ProblemRow → Bool
unfolding is_unread
breaks_check r = ltb r.revision 1 || is_unread (parse_difficulty r.difficulty)

abbrev pub test_breaks_check : TestRow → Bool
test_breaks_check t = ltb t.revision 1

-- Keys are unique, a test belongs to a stored problem, and no two tests of a problem stand at one
-- position.
pub record Inv (db : Catalogue) : Type 0 where
  pub one_row : (id : Bytes) → count_where (has_id id) db.problems ≤ 1
  pub one_position : (id : Bytes) (position : ℕ) → count_where (test_at id position) db.tests ≤ 1
  pub owned :
      (id : Bytes) → count_where (has_id id) db.problems ≡ 0 → count_where (test_of id) db.tests ≡ 0
  pub one_test : (k : ℕ) → count_where (has_test_id k) db.tests ≤ 1
  pub fresh : (k : ℕ) → db.next_test_id ≤ k → count_where (has_test_id k) db.tests ≡ 0
  pub checked : count_where breaks_check db.problems ≡ 0
  pub tests_checked : count_where test_breaks_check db.tests ≡ 0

pub Inv-empty : Inv empty
unfolding count_where
Inv-empty = record {
  one_row = λ id. omega arith;
  one_position = λ id position. omega arith;
  owned = λ id h. refl;
  one_test = λ k. omega arith;
  fresh = λ k h. refl;
  checked = refl;
  tests_checked = refl;
}

module _ {ℓ} {A : Type ℓ} (q : A → Bool) where
  -- The count behind an insertion.
  pub count-insert :
      (xs : List A) (x : A) → count_where q (xs ++ (x ∷ [])) ≡ count_where q xs + count_one (q x)
  unfolding count_where
  count-insert xs x = omega (arith, count-append q xs (x ∷ []))

same_count :
    (a b : Bytes) (rows : List ProblemRow)
    → bytes_beq a b ≡ true
    → count_where (has_id a) rows ≡ count_where (has_id b) rows
same_count a b rows h = rw ((bytes_beq_iff a b).0 h) refl

pub insert_problem-Inv :
    (r : ProblemRow) (db : Catalogue)
    → any_where (has_id r.id) db.problems ≡ false
    → breaks_check r ≡ false
    → Inv db
    → Inv (insert_problem r db)
insert_problem-Inv r db new good i = record {
  one_position = i.one_position;
  one_test = i.one_test;
  fresh = i.fresh;
  tests_checked = i.tests_checked;
  one_row = λ id. ground (
    arith,
    new,
    i.one_row id,
    count-insert (has_id id) db.problems r,
    same_count r.id id db.problems,
  );
  owned = λ id h. i.owned id (ground (arith, h, count-insert (has_id id) db.problems r));
  checked = ground (arith, good, i.checked, count-insert breaks_check db.problems r);
}

same_place :
    (a b : Bytes) (m n : ℕ) (rows : List TestRow)
    → bytes_beq a b ≡ true
    → nat_beq m n ≡ true
    → count_where (test_at a m) rows ≡ count_where (test_at b n) rows
same_place a b m n rows h k = rw ((bytes_beq_iff a b).0 h, (nat_beq_iff m n).0 k) refl

pub insert_test-Inv :
    (t : TestRow) (db : Catalogue)
    → admits_test t.problem_id t.position db ≡ true
    → t.id ≡ db.next_test_id
    → test_breaks_check t ≡ false
    → Inv db
    → Inv (insert_test t db)
unfolding admits_test
insert_test-Inv t db admitted numbered good i = record {
  one_row = i.one_row;
  one_position = λ id position. ground (
    arith,
    admitted,
    i.one_position id position,
    count-insert (test_at id position) db.tests t,
    same_place t.problem_id id t.position position db.tests,
  );
  owned = λ id h. ground (
    arith,
    admitted,
    h,
    i.owned id,
    count-insert (test_of id) db.tests t,
    same_count t.problem_id id db.problems,
  );
  one_test = λ k.
      ground (arith, numbered, i.one_test k, i.fresh k, count-insert (has_test_id k) db.tests t);
  fresh = λ k h. ground (arith, numbered, h, i.fresh k, count-insert (has_test_id k) db.tests t);
  checked = i.checked;
  tests_checked = ground (arith, good, i.tests_checked, count-insert test_breaks_check db.tests t);
}
