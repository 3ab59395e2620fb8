-- ===== src/Administration/Limits.antt =====
-- What `parse_admin_problem` and `parse_admin_test` let pass (backend/src/main.cpp).
use trainer.Prelude.{
  ◌&&◌, ℕ, suc, ◌≤◌, ◌≡◌, refl, ap, subst, Bool, true, false, ◌||◌, not, Option, none, some, List,
  [], ◌∷◌, Bytes, codes, arith, nat_eq, byte_eq, ltb, length, is_empty, Result, ok, err, Bool-cases,
  Option-cases, inl, inr, if◌then◌else◌,
}
use trainer.Problem.{Problem, ProblemTestCase, ProblemDifficulty}
use trainer.Catalogue.Columns.{parse_difficulty, read_examples}
use trainer.Administration.{
  AdminJson, valid_problem_slug, valid_hidden_test_text, read_strings, field, has_fields,
  exceeds_size, positive_revision, parse_lists, parse_revised, parse_fields, parse_problem,
  reads_names, parse_admin_problem, test_with, has_test_fields, parse_test,
}

-- A problem that may be stored.
pub record Limited (p : Problem) : Type 0 where
  pub slug : valid_problem_slug p.id ≡ true
  pub titled : is_empty p.title ≡ false
  pub title_size : length p.title ≤ 200
  pub description_size : length p.description ≤ 65536
  pub input_format_size : length p.input_format ≤ 65536
  pub output_format_size : length p.output_format ≤ 65536
  pub tags_size : length p.tags ≤ 50
  pub languages_size : length p.languages ≤ 10
  pub examples_size : length p.examples ≤ 20
  pub revised : 1 ≤ p.revision

abbrev pub EachLimited : Result Bytes Problem → Type 0
EachLimited (err message) = Unit {0}
EachLimited (ok p) = Limited p

-- Nothing is accepted where the parser throws.
abbrev pub AnyLimited : Option (Result Bytes Problem) → Type 0
AnyLimited none = Unit {0}
AnyLimited (some parsed) = EachLimited parsed

abbrev SameLength : {A : Type 0} → ℕ → Option (List A) → Type 0
SameLength n none = Unit {0}
SameLength n (some xs) = length xs ≡ n

module _ {J : Type 0} (library : AdminJson J) where
  open library use {texts}
  open texts use {values, elements}
  open values use {member, as_string}

  read_strings-SameLength : (js : List J) → SameLength (length js) (read_strings library js)
  unfolding read_strings
  read_strings-SameLength [] = refl
  read_strings-SameLength (j ∷ js) = elim (Bool-cases (values.is_string j)) [
    | inr t ↦ rw t tt
    | inl t ↦ elim (Option-cases (read_strings library js)) [
      | inl n ↦ rw (t, n) tt
      | inr (ts, n) ↦
          rw (t, n) (ap suc (subst (SameLength (length js)) n (read_strings-SameLength js)))
    ]
  ]

  read_examples-SameLength : (js : List J) → SameLength (length js) (read_examples texts js)
  unfolding read_examples
  read_examples-SameLength [] = refl
  read_examples-SameLength (j ∷ js) =
      elim (Bool-cases (
        not (values.is_object j)
        || (not (values.is_string (member j (codes "input")))
            || not (values.is_string (member j (codes "output")))))) [
              | inl t ↦ rw t tt
              | inr t ↦ elim (Option-cases (read_examples texts js)) [
                | inl n ↦ rw (t, n) tt
                | inr (es, n) ↦
                    rw (t, n)
                      (ap suc (subst (SameLength (length js)) n (read_examples-SameLength js)))
              ]
            ]

  lists-Limited :
      (json : J) (id : Bytes) (revision : ℕ) (difficulty : ProblemDifficulty)
      → valid_problem_slug id ≡ true
      → has_fields library json ≡ true
      → exceeds_size library json ≡ false
      → 1 ≤ revision
      → EachLimited (parse_lists library json id revision difficulty)
  unfolding parse_lists has_fields exceeds_size
  lists-Limited json id revision difficulty s f x r =
      elim (Option-cases (read_strings library (elements (member json (codes "tags"))))) [
        | inl t ↦ rw (parse_lists, t) tt
        | inr (tags, t) ↦
            elim (Option-cases
              (read_strings library (elements (member json (codes "languages"))))) [
                | inl l ↦ rw (parse_lists, t, l) tt
                | inr (languages, l) ↦
                    elim (Option-cases
                      (read_examples texts (elements (member json (codes "examples"))))) [
                        | inl e ↦ rw (parse_lists, t, l, e) tt
                        | inr (examples, e) ↦
                            rw (parse_lists, t, l, e)
                              (record {
                                slug = s;
                                titled = ground (arith, f);
                                title_size = ground (arith, x);
                                description_size = ground (arith, x);
                                input_format_size = ground (arith, x);
                                output_format_size = ground (arith, x);
                                tags_size =
                                    ground (
                                      arith,
                                      x,
                                      subst (SameLength _) t (read_strings-SameLength _),
                                    );
                                languages_size =
                                    ground (
                                      arith,
                                      x,
                                      subst (SameLength _) l (read_strings-SameLength _),
                                    );
                                examples_size =
                                    ground (
                                      arith,
                                      x,
                                      subst (SameLength _) e (read_examples-SameLength _),
                                    );
                                revised = r;
                              })
                      ]
              ]
      ]

  revised-Limited :
      (json : J) (id : Bytes) (revision : ℕ)
      → valid_problem_slug id ≡ true
      → has_fields library json ≡ true
      → exceeds_size library json ≡ false
      → 1 ≤ revision
      → EachLimited (parse_revised library json id revision)
  unfolding parse_revised
  revised-Limited json id revision s f x r =
      elim (Option-cases (parse_difficulty (field library json (codes "difficulty")))) [
        | inl d ↦ rw (parse_revised, d) tt
        | inr (difficulty, d) ↦
            rw (parse_revised, d) (lists-Limited json id revision difficulty s f x r)
      ]

  positive_revision-positive : (json : J) (n : ℕ) → positive_revision library json ≡ some n → 1 ≤ n
  unfolding positive_revision
  positive_revision-positive json n h = ground (arith, h)

  fields-Limited :
      (json : J) (id : Bytes) (updates : Bool) → EachLimited (parse_fields library json id updates)
  unfolding parse_fields
  fields-Limited json id updates =
      elim (Bool-cases (is_empty id || not (has_fields library json))) [
        | inl b ↦ rw b tt
        | inr b ↦ elim (Bool-cases (valid_problem_slug id)) [
          | inr s ↦ rw (b, s) tt
          | inl s ↦ elim (Bool-cases (exceeds_size library json)) [
            | inl x ↦ rw (b, s, x) tt
            | inr x ↦ rw (b, s, x) (sized json id updates s (ground (arith, b)) x)
          ]
        ]
      ]
    where
      sized :
          (json : J) (id : Bytes) (updates : Bool)
          → valid_problem_slug id ≡ true
          → has_fields library json ≡ true
          → exceeds_size library json ≡ false
          → EachLimited (
              if not updates
              then parse_revised library json id 1
              else elim (positive_revision library json) [
                | none ↦ err (codes "A positive revision is required when updating a problem")
                | some revision ↦ parse_revised library json id revision
              ])
      sized json id false s f x = revised-Limited json id 1 s f x (omega arith)
      sized json id true s f x = elim (Option-cases (positive_revision library json)) [
        | inl n ↦ rw n tt
        | inr (revision, n) ↦
            rw n
              (revised-Limited json id revision s f x (positive_revision-positive json revision n))
      ]

  parse_problem-EachLimited :
      (json : J) (path_id : Option Bytes) → EachLimited (parse_problem library json path_id)
  unfolding parse_problem
  parse_problem-EachLimited json (some id) = fields-Limited json id true
  parse_problem-EachLimited json none =
      elim (Bool-cases (values.is_string (member json (codes "id")))) [
        | inl t ↦ rw t (fields-Limited json (field library json (codes "id")) false)
        | inr t ↦ rw t tt
      ]

-- A hidden test that may be stored.
pub record TestLimited (id : ℕ) (t : ProblemTestCase) : Type 0 where
  pub same_id : t.id ≡ id
  pub input_size : length t.input ≤ 1048576
  pub output_size : length t.expected_output ≤ 1048576
  pub revised : 1 ≤ t.revision

abbrev pub EachTestLimited : ℕ → Result Bytes ProblemTestCase → Type 0
EachTestLimited id (err message) = Unit {0}
EachTestLimited id (ok t) = TestLimited id t

module _ {J : Type 0} (library : AdminJson J) where
  -- Whatever an administrator sends, a hidden test that is accepted has the id of the request, an
  -- input and an expected output of at most 1048576 bytes, and a positive revision.
  parse_test-EachTestLimited : (json : J) (id : ℕ) → EachTestLimited id (parse_test library json id)
  unfolding parse_test
  parse_test-EachTestLimited json id = elim (Bool-cases (has_test_fields library json)) [
    | inr f ↦ rw f tt
    | inl f ↦ elim (Bool-cases (valid_hidden_test_text (field library json (codes "input")))) [
      | inr a ↦ rw (f, a) tt
      | inl a ↦
          elim (Bool-cases (valid_hidden_test_text (field library json (codes "expectedOutput")))) [
            | inr b ↦ rw (f, a, b) tt
            | inl b ↦ elim (Bool-cases (ltb 0 id)) [
              | inr c ↦ rw (f, a, b, c) (limited json id 1 a b (omega arith))
              | inl c ↦ elim (Option-cases (positive_revision library json)) [
                | inl n ↦ rw (f, a, b, c, n) tt
                | inr (revision, n) ↦
                    rw (f, a, b, c, n)
                      (limited json id revision a b
                        (positive_revision-positive library json revision n))
              ]
            ]
          ]
    ]
  ]
    where
      limited :
          (json : J) (id revision : ℕ)
          → valid_hidden_test_text (field library json (codes "input")) ≡ true
          → valid_hidden_test_text (field library json (codes "expectedOutput")) ≡ true
          → 1 ≤ revision
          → TestLimited id (test_with library json id revision)
      limited json id revision a b r = record {
        same_id = refl;
        input_size = ground (arith, a);
        output_size = ground (arith, b);
        revised = r;
      }

  -- Whatever an administrator sends, a problem that is accepted has a slug, a title of 1 to 200
  -- bytes, texts of at most 65536 bytes, at most 50 tags, 10 languages and 20 examples, and a
  -- positive revision.
  pub parse_admin_problem-EachLimited :
      (json : J) (path_id : Option Bytes) → AnyLimited (parse_admin_problem library json path_id)
  unfolding parse_admin_problem
  parse_admin_problem-EachLimited json path_id =
      elim (Bool-cases (reads_names library path_id && not (library.has_names json))) [
        | inl t ↦ rw (parse_admin_problem, t) tt
        | inr t ↦ rw (parse_admin_problem, t) (parse_problem-EachLimited library json path_id)
      ]
