-- ===== src/Administration.antt =====
-- The input and output of administrators: the limits of
-- backend/include/algorithm-trainer/admin-validation.h, `parse_admin_problem` and
-- `parse_admin_test` of backend/src/main.cpp, and the printers of backend/src/problem.cpp. The JSON
-- library is an interface.
pub mod Limits
pub mod Forms
use trainer.Prelude.{
  ℕ, zero, suc, Bool, true, false, ◌&&◌, ◌||◌, not, Option, none, some, List, [], ◌∷◌, ◌++◌, map,
  Bytes, codes, nat_eq, byte_eq, ◌==◌, ltb, leb, length, all_of, is_empty, if◌then◌else◌, Result,
  ok, err,
}
use trainer.Problem.{
  ProblemDifficulty, easy, medium, hard, ProblemExample, ProblemTestCase, Problem, difficulty_name,
}
use trainer.Validation.{Json}
use trainer.Catalogue.Columns.{
  JsonText, parse_difficulty, read_examples, strings_json, examples_json,
}

-- What the handlers ask of numbers and truth values beside JsonText. `as_int64` is below 0 where
-- `is_negative` holds, and else `natural`.
pub record AdminJson (J : Type 0) : Type 0 where
  pub texts : JsonText J
  pub boolean : Bool → J
  pub integer : ℕ → J
  pub is_bool : J → Bool
  pub as_bool : J → Bool
  pub is_int64 : J → Bool
  pub is_negative : J → Bool
  pub natural : J → ℕ
  -- An object or null: `operator[]` with a name throws on any other value.
  pub has_names : J → Bool

abbrev pub maximum_problem_text_bytes : ℕ
maximum_problem_text_bytes = 65536

abbrev pub maximum_hidden_test_bytes : ℕ
maximum_hidden_test_bytes = 1048576

abbrev pub is_slug_character : ℕ → Bool
is_slug_character c = (leb b'a' c && leb c b'z') || ((leb b'0' c && leb c b'9') || c == b'-')

abbrev pub front_is_dash : Bytes → Bool
front_is_dash [] = false
front_is_dash (c ∷ cs) = c == b'-'

unfoldable pub back_is_dash : Bytes → Bool
back_is_dash [] = false
back_is_dash (c ∷ []) = c == b'-'
back_is_dash (c ∷ d ∷ cs) = back_is_dash (d ∷ cs)

unfoldable pub valid_problem_slug : Bytes → Bool
unfolding back_is_dash
valid_problem_slug slug =
    not (is_empty slug)
    && (leb (length slug) 80
        && (not (front_is_dash slug) && (not (back_is_dash slug) && all_of is_slug_character slug)))

abbrev pub valid_problem_text : Bytes → Bool
valid_problem_text text = leb (length text) maximum_problem_text_bytes

abbrev pub valid_hidden_test_text : Bytes → Bool
valid_hidden_test_text text = leb (length text) maximum_hidden_test_bytes

module _ {J : Type 0} (library : AdminJson J) where
  open library use {
    texts, boolean, integer, is_bool, as_bool, is_int64, is_negative, natural, has_names,
  }
  open texts use {values, string, array, object, is_array, elements}
  open values use {is_object, member, is_string, as_string}

  -- The loops over tags and languages: none for an element that is no string.
  unfoldable pub read_strings : List J → Option (List Bytes)
  read_strings [] = some []
  read_strings (j ∷ js) =
      let rest = read_strings js in
      if not (is_string j)
      then none
      else elim rest [ none ↦ none | some texts ↦ some (as_string j ∷ texts) ]

  abbrev pub field : J → Bytes → Bytes
  field json name = as_string (member json name)

  -- The tests of the fields' types.
  unfoldable pub has_fields : J → Bool
  has_fields json =
      is_string (member json (codes "title"))
      && (not (is_empty (field json (codes "title")))
          && (is_string (member json (codes "description"))
              && (is_string (member json (codes "inputFormat"))
                  && (is_string (member json (codes "outputFormat"))
                      && (is_string (member json (codes "difficulty"))
                          && (is_array (member json (codes "tags"))
                              && (is_array (member json (codes "languages"))
                                  && (is_array (member json (codes "examples"))
                                      && is_bool (member json (codes "enabled"))))))))))

  unfoldable pub exceeds_size : J → Bool
  exceeds_size json =
      ltb 200 (length (field json (codes "title")))
      || (not (valid_problem_text (field json (codes "description")))
          || (not (valid_problem_text (field json (codes "inputFormat")))
              || (not (valid_problem_text (field json (codes "outputFormat")))
                  || (ltb 50 (length (elements (member json (codes "tags"))))
                      || (ltb 10 (length (elements (member json (codes "languages"))))
                          || ltb 20 (length (elements (member json (codes "examples")))))))))

  -- A revision that is a positive number.
  unfoldable pub positive_revision : J → Option ℕ
  positive_revision json =
      if not (is_int64 (member json (codes "revision")))
      then none
      else if is_negative (member json (codes "revision"))
          || natural (member json (codes "revision")) == 0
      then none
      else some (natural (member json (codes "revision")))

  -- The problem with its fields, behind the revision and the difficulty.
  unfoldable pub parse_lists : J → Bytes → ℕ → ProblemDifficulty → Result Bytes Problem
  unfolding read_strings read_examples
  parse_lists json id revision difficulty =
      elim (read_strings (elements (member json (codes "tags")))) [
        | none ↦ err (codes "Tags must contain strings")
        | some tags ↦ elim (read_strings (elements (member json (codes "languages")))) [
          | none ↦ err (codes "Languages must contain strings")
          | some languages ↦
              elim (read_examples texts (elements (member json (codes "examples")))) [
                | none ↦ err (codes "Examples must contain input and output strings")
                | some examples ↦ ok (record {
                  id = id;
                  title = field json (codes "title");
                  description = field json (codes "description");
                  input_format = field json (codes "inputFormat");
                  output_format = field json (codes "outputFormat");
                  difficulty = difficulty;
                  tags = tags;
                  languages = languages;
                  examples = examples;
                  enabled = as_bool (member json (codes "enabled"));
                  revision = revision;
                  hidden_tests = [];
                })
              ]
        ]
      ]

  unfoldable pub parse_revised : J → Bytes → ℕ → Result Bytes Problem
  unfolding parse_difficulty parse_lists
  parse_revised json id revision = elim (parse_difficulty (field json (codes "difficulty"))) [
    | none ↦ err (codes "Difficulty must be Easy, Medium, or Hard")
    | some difficulty ↦ parse_lists json id revision difficulty
  ]

  -- Behind the id: the flag says whether it stands in the path.
  unfoldable pub parse_fields : J → Bytes → Bool → Result Bytes Problem
  unfolding parse_revised
  parse_fields json id updates =
      if is_empty id || not (has_fields json)
      then err (codes "Problem fields are invalid or incomplete")
      else if not (valid_problem_slug id)
      then err (codes "Problem id must be a lowercase slug")
      else if exceeds_size json
      then err (codes "Problem metadata exceeds the allowed size")
      else if not updates
      then parse_revised json id 1
      else elim (positive_revision json) [
        | none ↦ err (codes "A positive revision is required when updating a problem")
        | some revision ↦ parse_revised json id revision
      ]

  -- `parse_admin_problem` where each `operator[]` gives a member.
  unfoldable pub parse_problem : J → Option Bytes → Result Bytes Problem
  unfolding parse_fields
  parse_problem json (some id) = parse_fields json id true
  parse_problem json none =
      if not (is_string (member json (codes "id")))
      then err (codes "Problem id must be a string")
      else parse_fields json (field json (codes "id")) false

  -- The id of the path is asked for first: an empty one is refused before any member is read.
  abbrev pub reads_names : Option Bytes → Bool
  reads_names none = true
  reads_names (some id) = not (is_empty id)

  -- None where `operator[]` throws.
  unfoldable pub parse_admin_problem : J → Option Bytes → Option (Result Bytes Problem)
  unfolding parse_problem
  parse_admin_problem json id =
      if reads_names id && not (has_names json) then none else some (parse_problem json id)

  abbrev pub test_with : J → ℕ → ℕ → ProblemTestCase
  test_with json id revision = record {
    input = field json (codes "input");
    expected_output = field json (codes "expectedOutput");
    id = id;
    position = natural (member json (codes "position"));
    enabled = as_bool (member json (codes "enabled"));
    revision = revision;
  }

  unfoldable pub has_test_fields : J → Bool
  has_test_fields json =
      is_string (member json (codes "input"))
      && (is_string (member json (codes "expectedOutput"))
          && (is_int64 (member json (codes "position"))
              && (not (is_negative (member json (codes "position")))
                  && is_bool (member json (codes "enabled")))))

  -- The id is 0 for a test that is new.
  unfoldable pub parse_test : J → ℕ → Result Bytes ProblemTestCase
  parse_test json id =
      if not (has_test_fields json)
      then err (codes "Test input, expectedOutput, non-negative position, and enabled are required")
      else if not (valid_hidden_test_text (field json (codes "input")))
          || not (valid_hidden_test_text (field json (codes "expectedOutput")))
      then err (codes "Hidden-test input or output exceeds the allowed size")
      else if not (ltb 0 id)
      then ok (test_with json id 1)
      else elim (positive_revision json) [
        | none ↦ err (codes "A positive revision is required when updating a hidden test")
        | some revision ↦ ok (test_with json id revision)
      ]

  -- None where `operator[]` throws.
  unfoldable pub parse_admin_test : J → ℕ → Option (Result Bytes ProblemTestCase)
  unfolding parse_test
  parse_admin_test json id = if not (has_names json) then none else some (parse_test json id)

  -- The members that `problem_to_json` sets, in the order of the code.
  unfoldable pub problem_members : Problem → List (Bytes × J)
  problem_members problem =
      (codes "id", string problem.id)
      ∷ (codes "title", string problem.title)
      ∷ (codes "description", string problem.description)
      ∷ (codes "inputFormat", string problem.input_format)
      ∷ (codes "outputFormat", string problem.output_format)
      ∷ (codes "difficulty", string (difficulty_name problem.difficulty))
      ∷ (codes "tags", strings_json texts problem.tags)
      ∷ (codes "languages", strings_json texts problem.languages)
      ∷ (codes "examples", examples_json texts problem.examples)
      ∷ []

  abbrev pub problem_to_json : Problem → J
  problem_to_json problem = object (problem_members problem)

  unfoldable pub problem_summary_to_json : Problem → J
  problem_summary_to_json problem = object (
      (codes "id", string problem.id)
      ∷ (codes "title", string problem.title)
      ∷ (codes "difficulty", string (difficulty_name problem.difficulty))
      ∷ (codes "tags", strings_json texts problem.tags)
      ∷ [])

  unfoldable pub admin_problem_test_to_json : ProblemTestCase → J
  admin_problem_test_to_json test = object (
      (codes "id", integer test.id)
      ∷ (codes "input", string test.input)
      ∷ (codes "expectedOutput", string test.expected_output)
      ∷ (codes "position", integer test.position)
      ∷ (codes "enabled", boolean test.enabled)
      ∷ (codes "revision", integer test.revision)
      ∷ [])

  unfoldable pub admin_problem_to_json : Problem → J
  unfolding problem_members admin_problem_test_to_json
  admin_problem_to_json problem = object (
      problem_members problem
      ++ ((codes "enabled", boolean problem.enabled)
          ∷ (codes "revision", integer problem.revision)
          ∷ (codes "tests", array (map admin_problem_test_to_json problem.hidden_tests))
          ∷ []))
