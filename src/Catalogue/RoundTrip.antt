-- ===== src/Catalogue/RoundTrip.antt =====
-- A problem that is written and read again: the columns of backend/src/sqlite-problem-repository.cpp.
-- What the code relies on in the JSON library is stated as laws of its constructors, and as the
-- round trip of the texts of one problem.
use trainer.Prelude.{
  ℕ, suc, ◌≤◌, ◌≡◌, refl, ap, ◌∙◌, Bool, true, false, some, List, [], ◌∷◌, ◌++◌, map, Bytes, codes,
  byte_eq, bytes_beq_iff, nat_beq_iff, arith, count_where, sort_by, ok, inl, inr, Bool-cases,
}
use trainer.Problem.{
  ProblemExample, ProblemDifficulty, easy, medium, hard, Problem, difficulty_name,
}
use trainer.Sqlite.{works}
use trainer.Table.{select_where, update_where, count_mono, count-update_where}
use trainer.Catalogue.{ProblemRow, Catalogue, has_id, has_revision, test_of, any_where}
use trainer.Catalogue.Columns.{
  JsonText, column_text, strings_json, example_json, examples_json, problem_row, read_array,
  read_examples, with_metadata, read_row,
}
use trainer.Catalogue.Writing.{create, update, updated_row, insert_problem}
use trainer.Catalogue.Reading.{wanted_test, tests_of, with_tests, lookup, find_any}
use trainer.Catalogue.Invariant.{Inv}
use trainer.Catalogue.Updating.{parse_difficulty-difficulty_name}
use trainer.Catalogue.Seeded.{stored}

column_text-difficulty_name :
    (difficulty : ProblemDifficulty)
    → column_text (difficulty_name difficulty) ≡ difficulty_name difficulty
unfolding column_text difficulty_name codes
column_text-difficulty_name easy = refl
column_text-difficulty_name medium = refl
column_text-difficulty_name hard = refl

module _ {J : Type 0} (library : JsonText J) where
  open library use {values, string, array, object, is_array, elements, write, read}
  open values use {is_object, member, is_string, as_string}

  -- What jsoncpp documents of the values that it builds.
  pub record JsonLaws : Type 0 where
    pub is_array-array : (js : List J) → is_array (array js) ≡ true
    pub elements-array : (js : List J) → elements (array js) ≡ js
    pub is_string-string : (text : Bytes) → is_string (string text) ≡ true
    pub as_string-string : (text : Bytes) → as_string (string text) ≡ text
    pub is_object-object : (members : List (Bytes × J)) → is_object (object members) ≡ true
    pub member-input :
        (x y : J)
        → member (object ((codes "input", x) ∷ (codes "output", y) ∷ [])) (codes "input") ≡ x
    pub member-output :
        (x y : J)
        → member (object ((codes "input", x) ∷ (codes "output", y) ∷ [])) (codes "output") ≡ y

  -- What is written of the problem is read as it was: the texts hold no NUL, at which `column_text`
  -- cuts, and the library reads what it wrote; so it does where the strings are UTF-8.
  pub record ReadsBack (problem : Problem) : Type 0 where
    pub id : column_text problem.id ≡ problem.id
    pub title : column_text problem.title ≡ problem.title
    pub description : column_text problem.description ≡ problem.description
    pub input_format : column_text problem.input_format ≡ problem.input_format
    pub output_format : column_text problem.output_format ≡ problem.output_format
    pub tags :
        read (column_text (write (strings_json library problem.tags)))
        ≡ some (strings_json library problem.tags)
    pub languages :
        read (column_text (write (strings_json library problem.languages)))
        ≡ some (strings_json library problem.languages)
    pub examples :
        read (column_text (write (examples_json library problem.examples)))
        ≡ some (examples_json library problem.examples)

  module _ (laws : JsonLaws) where
    read_array-write :
        (js : List J)
        → read (column_text (write (array js))) ≡ some (array js)
        → read_array library (column_text (write (array js))) ≡ some js
    unfolding read_array
    read_array-write js h = rw (h, read_array, laws.is_array-array js, laws.elements-array js) refl

    as_string-map : (texts : List Bytes) → map as_string (map string texts) ≡ texts
    as_string-map [] = refl
    as_string-map (t ∷ ts) = rw (laws.as_string-string t, as_string-map ts) refl

    pub read_examples-map :
        (examples : List ProblemExample)
        → read_examples library (map (example_json library) examples) ≡ some examples
    unfolding read_examples
    read_examples-map [] = refl
    read_examples-map (e ∷ es) =
        rw
          (
            laws.is_object-object,
            laws.member-input,
            laws.member-output,
            laws.is_string-string e.input,
            laws.is_string-string e.output,
            laws.as_string-string e.input,
            laws.as_string-string e.output,
            read_examples-map es,
          )
          refl

    -- A row is read as the problem that was written, with the columns that the statement computed.
    pub read_row-problem_row :
        (problem : Problem) (enabled : Bool) (revision : ℕ) (created_at updated_at : Bytes)
        → ReadsBack problem
        → read_row library (problem_row library problem enabled revision created_at updated_at)
          ≡ ok (record problem { enabled = enabled; revision = revision; hidden_tests = [] })
    unfolding read_row problem_row with_metadata
    read_row-problem_row problem enabled revision created_at updated_at b =
        rw
          (
            read_row,
            column_text-difficulty_name problem.difficulty,
            parse_difficulty-difficulty_name problem.difficulty,
            read_array-write (map string problem.tags) b.tags,
            read_array-write (map string problem.languages) b.languages,
            read_array-write (map (example_json library) problem.examples) b.examples,
            with_metadata,
            read_examples-map problem.examples,
            as_string-map problem.tags,
            as_string-map problem.languages,
            b.id,
            b.title,
            b.description,
            b.input_format,
            b.output_format,
          )
          refl

-- Selections that find nothing, or one row.
select-none :
    {A : Type 0} (p : A → Bool) (xs ys : List A)
    → count_where p xs ≡ 0
    → select_where p (xs ++ ys) ≡ select_where p ys
unfolding select_where count_where
select-none p [] ys h = refl
select-none p (x ∷ xs) ys h = elim (Bool-cases (p x)) [
  | inl t ↦ absurd (ground (arith, t, h))
  | inr t ↦ rw t (select-none p xs ys (ground (arith, t, h)))
]

select-empty :
    {A : Type 0} (p : A → Bool) (xs : List A) → count_where p xs ≡ 0 → select_where p xs ≡ []
unfolding select_where count_where
select-empty p [] h = refl
select-empty p (x ∷ xs) h = elim (Bool-cases (p x)) [
  | inl t ↦ absurd (ground (arith, t, h))
  | inr t ↦ rw t (select-empty p xs (ground (arith, t, h)))
]

-- An update is seen by the selection of the row that it met.
select-updated :
    {A : Type 0} (p q : A → Bool) (f : A → A) (within : (a : A) → q a ≡ true → p a ≡ true)
    (keeps : (a : A) → p (f a) ≡ p a) (xs : List A)
    → count_where p xs ≤ 1
    → 1 ≤ count_where q xs
    → (a : A) × (q a ≡ true) × (select_where p (update_where q f xs) ≡ f a ∷ [])
unfolding select_where count_where update_where
select-updated p q f within keeps [] h k = absurd (ground (arith, k))
select-updated p q f within keeps (x ∷ xs) h k = elim (Bool-cases (q x)) [
  | inl t ↦ (
    x,
    t,
    rw
        (
          t,
          keeps x,
          within x t,
          select-empty p (update_where q f xs)
              (ground (arith, h, within x t, count-update_where q p f (λ a m. keeps a) xs)),
        )
        refl,
  )
  | inr t ↦ elim (Bool-cases (p x)) [
    | inl u ↦ absurd (ground (arith, h, k, t, u, count_mono q p within xs))
    | inr u ↦
        rw (t, u)
          (select-updated p q f within keeps xs (ground (arith, h, u)) (ground (arith, k, t)))
  ]
]

tests_of-none :
    (include_disabled : Bool) (id : Bytes) (db : Catalogue)
    → count_where (test_of id) db.tests ≡ 0
    → tests_of include_disabled id db ≡ []
unfolding sort_by tests_of
tests_of-none include_disabled id db h =
    rw
      (select-empty (wanted_test include_disabled id) db.tests (
        ground (
          arith,
          h,
          count_mono (wanted_test include_disabled id) (test_of id) (λ t m. ground arith) db.tests,
        )))
      refl

-- A lookup whose statements work and that meets a row.
find_any-row :
    {J : Type 0} (library : JsonText J) (id : Bytes) (db : Catalogue) (r : ProblemRow)
    (problem : Problem)
    → select_where (has_id id) db.problems ≡ r ∷ []
    → read_row library r ≡ ok problem
    → find_any library works works id db
      ≡ ok (some (record problem { hidden_tests = tests_of true problem.id db }))
unfolding find_any lookup with_tests
find_any-row library id db r problem h k = rw (find_any, h, lookup, k, with_tests) refl

module _ {J : Type 0} (library : JsonText J) (laws : JsonLaws library) where
  inserted_row :
      (problem : Problem) (now : Bytes) (db : Catalogue)
      → stored problem.id db ≡ false
      → select_where
          (has_id problem.id)
          (insert_problem (problem_row library problem problem.enabled 1 now now) db).problems
        ≡ problem_row library problem problem.enabled 1 now now ∷ []
  unfolding problem_row select_where
  inserted_row problem now db new =
      select-none (has_id problem.id) db.problems _ (ground (arith, new))
      ∙ (rw ((bytes_beq_iff problem.id problem.id).1 refl) refl)

  kept_id :
      (now : Bytes) (problem : Problem) (r : ProblemRow)
      → has_id problem.id (updated_row library now problem r) ≡ has_id problem.id r
  unfolding updated_row
  kept_id now problem r = refl

  abbrev updated : Bytes → Problem → Catalogue → Catalogue
  updated now problem db = record db {
    problems =
        update_where (has_revision problem.id problem.revision) (updated_row library now problem)
          db.problems;
  }

  met_row :
      (now : Bytes) (problem : Problem) (r : ProblemRow)
      → has_revision problem.id problem.revision r ≡ true
      → updated_row library now problem r
        ≡ problem_row library problem problem.enabled (suc problem.revision) r.created_at now
  unfolding updated_row problem_row
  met_row now problem r m =
      same_columns r.id r.revision ((bytes_beq_iff r.id problem.id).0 (ground (arith, m)))
        ((nat_beq_iff r.revision problem.revision).0 (ground (arith, m)))
    where
      same_columns :
          (id : Bytes) (n : ℕ)
          → id ≡ problem.id
          → n ≡ problem.revision
          → ◌≡◌ {A = ProblemRow}
              (record (problem_row library problem problem.enabled (suc n) r.created_at now) {
                id = id;
              })
              (problem_row library problem problem.enabled (suc problem.revision) r.created_at now)
      same_columns id n p q = rw (p, q) refl

  -- Where the tables satisfy the invariant, no problem has the id, and the problem's texts hold no
  -- NUL and are read back by the JSON library, a problem that is created is found with revision 1 and no hidden test.
  pub create-find_any :
      (now : Bytes) (problem : Problem) (db : Catalogue)
      → Inv db
      → stored problem.id db ≡ false
      → ReadsBack library problem
      → find_any library works works problem.id (create library works now problem db).1
        ≡ ok (some (record problem { revision = 1; hidden_tests = [] }))
  unfolding create find_any lookup with_tests select_where tests_of
  create-find_any now problem db i new b = rw new (
      find_any-row library problem.id
        (insert_problem (problem_row library problem problem.enabled 1 now now) db) _ _
        (inserted_row problem now db new)
        (read_row-problem_row library laws problem problem.enabled 1 now now b)
      ∙ ap (λ ts. ok (some (record problem { revision = 1; hidden_tests = ts })))
          (tests_of-none true problem.id db (i.owned problem.id (ground (arith, new)))))

  -- Where the tables satisfy the invariant and hold the problem at the revision that it is based
  -- on, and its texts hold no NUL and are read back by the JSON library, a problem that is updated is
  -- found with the next revision and the hidden tests that are stored, whose texts are read up to
  -- their first NUL.
  pub update-find_any :
      (now : Bytes) (problem : Problem) (db : Catalogue)
      → Inv db
      → any_where (has_revision problem.id problem.revision) db.problems ≡ true
      → ReadsBack library problem
      → find_any library works works problem.id (update library works now problem db).1
        ≡ ok (
            some (record problem {
              revision = suc problem.revision;
              hidden_tests = tests_of true problem.id db;
            }))
  unfolding update find_any lookup with_tests tests_of
  update-find_any now problem db i here b =
      let (r, m, e) =
        select-updated (has_id problem.id) (has_revision problem.id problem.revision)
          (updated_row library now problem) (λ a h. ground arith) (λ a. kept_id now problem a)
          db.problems (i.one_row problem.id) (ground (arith, here)) in
      rw here (
        find_any-row library problem.id (updated now problem db) (updated_row library now problem r)
          _ e
          (ap (read_row library) (met_row now problem r m)
            ∙ read_row-problem_row library laws problem problem.enabled (suc problem.revision)
                r.created_at now b))
