-- ===== src/Catalogue/Columns.antt =====
-- A problem as the columns of its row: `strings_json`, `examples_json`, `parse_difficulty` and the
-- decoding part of `read_problem` (backend/src/sqlite-problem-repository.cpp). The JSON library is
-- an interface.
use trainer.Prelude.{
  ℕ, Bool, nat_eq, ◌||◌, not, Option, none, some, List, [], ◌∷◌, Bytes, codes, byte_eq, ◌==◌, map,
  if◌then◌else◌, Result, ok, err,
}
use trainer.Problem.{
  ProblemDifficulty, easy, medium, hard, ProblemExample, Problem, difficulty_name,
}
use trainer.Validation.{Json}
use trainer.Catalogue.{ProblemRow, ProblemRepositoryError}

-- What the repositories call of the JSON library, beside the members of Json: `write` prints
-- without indentation, `read` gives nothing for a text that is no JSON.
pub record JsonText (J : Type 0) : Type 0 where
  pub values : Json J
  pub string : Bytes → J
  pub array : List J → J
  pub object : List (Bytes × J) → J
  pub is_array : J → Bool
  pub elements : J → List J
  pub write : J → Bytes
  pub read : Bytes → Option J

unfoldable pub parse_difficulty : Bytes → Option ProblemDifficulty
parse_difficulty value =
    if value == codes "Easy"
    then some easy
    else if value == codes "Medium"
    then some medium
    else if value == codes "Hard"
    then some hard
    else none

abbrev pub repository_error : Bytes → ProblemRepositoryError
repository_error message = record { message = message }

-- `column_text`: the text up to its first NUL, since the source builds it from a C pointer.
unfoldable pub column_text : Bytes → Bytes
column_text [] = []
column_text (c ∷ cs) = let rest = column_text cs in if c == 0 then [] else c ∷ rest

abbrev invalid_metadata : ProblemRepositoryError
invalid_metadata = repository_error (codes "Database contains invalid problem metadata")

module _ {J : Type 0} (library : JsonText J) where
  open library use {values, string, array, object, is_array, elements, write, read}
  open values use {is_object, member, is_string, as_string}

  abbrev pub strings_json : List Bytes → J
  strings_json texts = array (map string texts)

  abbrev pub example_json : ProblemExample → J
  example_json example =
      object ((codes "input", string example.input) ∷ (codes "output", string example.output) ∷ [])

  abbrev pub examples_json : List ProblemExample → J
  examples_json examples = array (map example_json examples)

  -- The columns that the statements write of a problem, with those that they compute.
  unfoldable pub problem_row : Problem → Bool → ℕ → Bytes → Bytes → ProblemRow
  problem_row problem enabled revision created_at updated_at = record {
    id = problem.id;
    title = problem.title;
    description = problem.description;
    input_format = problem.input_format;
    output_format = problem.output_format;
    difficulty = difficulty_name problem.difficulty;
    tags_json = write (strings_json problem.tags);
    languages_json = write (strings_json problem.languages);
    examples_json = write (examples_json problem.examples);
    enabled = enabled;
    created_at = created_at;
    updated_at = updated_at;
    revision = revision;
  }

  -- `parse_json` and the test of `isArray`.
  unfoldable pub read_array : Bytes → Option (List J)
  read_array text = elim (read text) [
    | none ↦ none
    | some json ↦ if is_array json then some (elements json) else none
  ]

  consed : ProblemExample → Option (List ProblemExample) → Option (List ProblemExample)
  consed example none = none
  consed example (some examples) = some (example ∷ examples)

  -- The loop over the examples; none for the first that is not an object with the two strings.
  unfoldable pub read_examples : List J → Option (List ProblemExample)
  unfolding consed
  read_examples [] = some []
  read_examples (j ∷ js) =
      let rest = read_examples js in
      if not (is_object j)
        || (not (is_string (member j (codes "input")))
            || not (is_string (member j (codes "output"))))
      then none
      else consed
          (record {
            input = as_string (member j (codes "input"));
            output = as_string (member j (codes "output"));
          })
          rest

  -- The problem of a row whose metadata is valid.
  unfoldable pub with_metadata :
      ProblemRow
      → ProblemDifficulty
      → List J
      → List J
      → List J
      → Result ProblemRepositoryError Problem
  unfolding read_examples column_text
  with_metadata row difficulty tags languages examples = elim (read_examples examples) [
    | none ↦ err (repository_error (codes "Database contains invalid problem examples"))
    | some decoded ↦ ok (record {
      id = column_text row.id;
      title = column_text row.title;
      description = column_text row.description;
      input_format = column_text row.input_format;
      output_format = column_text row.output_format;
      difficulty = difficulty;
      tags = map as_string tags;
      languages = map as_string languages;
      examples = decoded;
      enabled = row.enabled;
      revision = row.revision;
      hidden_tests = [];
    })
  ]

  -- `read_problem` up to the hidden tests.
  unfoldable pub read_row : ProblemRow → Result ProblemRepositoryError Problem
  unfolding parse_difficulty read_array with_metadata column_text
  read_row row = elim (parse_difficulty (column_text row.difficulty)) [
    | none ↦ err invalid_metadata
    | some difficulty ↦ elim (read_array (column_text row.tags_json)) [
      | none ↦ err invalid_metadata
      | some tags ↦ elim (read_array (column_text row.languages_json)) [
        | none ↦ err invalid_metadata
        | some languages ↦ elim (read_array (column_text row.examples_json)) [
          | none ↦ err invalid_metadata
          | some examples ↦ with_metadata row difficulty tags languages examples
        ]
      ]
    ]
  ]
