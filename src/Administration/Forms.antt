-- ===== src/Administration/Forms.antt =====
-- The form of a problem that the administrator's page is given and sends back:
-- `admin_problem_to_json` (backend/src/problem.cpp) and `parse_admin_problem`
-- (backend/src/main.cpp). The laws are what jsoncpp documents of the values that it builds.
use trainer.Prelude.{
  ap, ℕ, ◌≤◌, ◌≡◌, refl, Bool, true, false, Option, none, some, List, [], ◌∷◌, ◌++◌, map, Bytes,
  codes, arith, nat_eq, byte_eq, length, is_empty, bytes_beq, if◌then◌else◌, ok,
}
use trainer.Problem.{Problem, difficulty_name}
use trainer.Server.Lookups.{maximum_id}
use trainer.Catalogue.Columns.{strings_json, examples_json, example_json}
use trainer.Catalogue.RoundTrip.{JsonLaws, read_examples-map}
use trainer.Catalogue.Updating.{parse_difficulty-difficulty_name}
use trainer.Administration.{
  AdminJson, valid_problem_slug, read_strings, has_fields, exceeds_size, positive_revision, field,
  parse_lists, parse_revised, parse_fields, parse_problem, parse_admin_problem, problem_members,
  admin_problem_test_to_json, admin_problem_to_json,
}

-- The value of the first member with the name.
abbrev pub lookup_member {ℓ} : {J : Type ℓ} → Bytes → List (Bytes × J) → Option J
lookup_member name [] = none
lookup_member name ((k, v) ∷ rest) =
    let other = lookup_member name rest in if bytes_beq k name then some v else other

-- A problem within the limits of the form.
pub record Fits (p : Problem) : Type 0 where
  pub slug : valid_problem_slug p.id ≡ true
  pub titled : is_empty p.title ≡ false
  pub title_size : length p.title ≤ 200
  pub description_size : length p.description ≤ 65536
  pub input_format_size : length p.input_format ≤ 65536
  pub output_format_size : length p.output_format ≤ 65536
  pub tags_size : length p.tags ≤ 50
  pub languages_size : length p.languages ≤ 10
  pub examples_size : length p.examples ≤ 20
  pub revised : 1 ≤ p.revision
  pub revision_size : p.revision ≤ maximum_id

module _ {J : Type 0} (library : AdminJson J) where
  open library use {texts, boolean, integer, is_bool, as_bool, is_int64, is_negative, natural}
  open texts use {values, string, array, object, is_array, elements}
  open values use {is_object, member, is_string, as_string}

  pub record AdminLaws : Type 0 where
    pub json : JsonLaws texts
    pub member-object :
        (members : List (Bytes × J)) (name : Bytes) (v : J)
        → lookup_member name members ≡ some v
        → member (object members) name ≡ v
    pub is_bool-boolean : (b : Bool) → is_bool (boolean b) ≡ true
    pub as_bool-boolean : (b : Bool) → as_bool (boolean b) ≡ b
    pub is_int64-integer : (n : ℕ) → n ≤ maximum_id → is_int64 (integer n) ≡ true
    pub is_negative-integer : (n : ℕ) → n ≤ maximum_id → is_negative (integer n) ≡ false
    pub natural-integer : (n : ℕ) → n ≤ maximum_id → natural (integer n) ≡ n
    pub has_names-object : (members : List (Bytes × J)) → library.has_names (object members) ≡ true

  module _ (laws : AdminLaws) (p : Problem) (fits : Fits p) where
    open laws use {json}

    abbrev form : J
    form = admin_problem_to_json library p

    read_strings-map : (ts : List Bytes) → read_strings library (map string ts) ≡ some ts
    unfolding read_strings
    read_strings-map [] = refl
    read_strings-map (t ∷ ts) =
        rw (json.is_string-string t, read_strings-map ts, json.as_string-string t) refl

    length-map : {A B : Type 0} (f : A → B) (xs : List A) → length (map f xs) ≡ length xs
    length-map f [] = refl
    length-map f (x ∷ xs) = omega (arith, length-map f xs)

    at :
        (name : Bytes) (v : J)
        → lookup_member name (
            problem_members library p
            ++ ((codes "enabled", boolean p.enabled)
                ∷ (codes "revision", integer p.revision)
                ∷ (codes "tests", array (map (admin_problem_test_to_json library) p.hidden_tests))
                ∷ []))
          ≡ some v
        → member form name ≡ v
    unfolding admin_problem_to_json
    at name v h = laws.member-object _ name v h

    form-title : member form (codes "title") ≡ string p.title
    unfolding problem_members bytes_beq codes
    form-title = at _ _ refl

    form-description : member form (codes "description") ≡ string p.description
    unfolding problem_members bytes_beq codes
    form-description = at _ _ refl

    form-input_format : member form (codes "inputFormat") ≡ string p.input_format
    unfolding problem_members bytes_beq codes
    form-input_format = at _ _ refl

    form-output_format : member form (codes "outputFormat") ≡ string p.output_format
    unfolding problem_members bytes_beq codes
    form-output_format = at _ _ refl

    form-difficulty : member form (codes "difficulty") ≡ string (difficulty_name p.difficulty)
    unfolding problem_members bytes_beq codes
    form-difficulty = at _ _ refl

    form-tags : member form (codes "tags") ≡ strings_json texts p.tags
    unfolding problem_members bytes_beq codes
    form-tags = at _ _ refl

    form-languages : member form (codes "languages") ≡ strings_json texts p.languages
    unfolding problem_members bytes_beq codes
    form-languages = at _ _ refl

    form-examples : member form (codes "examples") ≡ examples_json texts p.examples
    unfolding problem_members bytes_beq codes
    form-examples = at _ _ refl

    form-enabled : member form (codes "enabled") ≡ boolean p.enabled
    unfolding problem_members bytes_beq codes
    form-enabled = at _ _ refl

    form-revision : member form (codes "revision") ≡ integer p.revision
    unfolding problem_members bytes_beq codes
    form-revision = at _ _ refl

    form-has_fields : has_fields library form ≡ true
    unfolding has_fields
    form-has_fields =
        rw
          (
            field,
            form-title,
            form-description,
            form-input_format,
            form-output_format,
            form-difficulty,
            form-tags,
            form-languages,
            form-examples,
            form-enabled,
            json.is_string-string p.title,
            json.as_string-string p.title,
            fits.titled,
            json.is_string-string p.description,
            json.is_string-string p.input_format,
            json.is_string-string p.output_format,
            json.is_string-string (difficulty_name p.difficulty),
            json.is_array-array (map string p.tags),
            json.is_array-array (map string p.languages),
            json.is_array-array (map (example_json texts) p.examples),
            laws.is_bool-boolean p.enabled,
          )
          refl

    form-exceeds_size : exceeds_size library form ≡ false
    unfolding exceeds_size
    form-exceeds_size =
        rw
          (
            field,
            form-title,
            form-description,
            form-input_format,
            form-output_format,
            form-tags,
            form-languages,
            form-examples,
            json.as_string-string p.title,
            json.as_string-string p.description,
            json.as_string-string p.input_format,
            json.as_string-string p.output_format,
            json.elements-array (map string p.tags),
            json.elements-array (map string p.languages),
            json.elements-array (map (example_json texts) p.examples),
            length-map string p.tags,
            length-map string p.languages,
            length-map (example_json texts) p.examples,
          )
          (ground (
            arith, fits.title_size, fits.description_size, fits.input_format_size,
            fits.output_format_size, fits.tags_size, fits.languages_size, fits.examples_size,
          ))

    form-positive_revision : positive_revision library form ≡ some p.revision
    unfolding positive_revision
    form-positive_revision =
        rw
          (
            form-revision,
            laws.is_int64-integer p.revision fits.revision_size,
            laws.is_negative-integer p.revision fits.revision_size,
            laws.natural-integer p.revision fits.revision_size,
          )
          (ground (arith, fits.revised))

    form-parse_lists :
        parse_lists library form p.id p.revision p.difficulty ≡ ok (record p { hidden_tests = [] })
    unfolding parse_lists
    form-parse_lists =
        rw
          (
            parse_lists,
            form-tags,
            json.elements-array (map string p.tags),
            read_strings-map p.tags,
            form-languages,
            json.elements-array (map string p.languages),
            read_strings-map p.languages,
            form-examples,
            json.elements-array (map (example_json texts) p.examples),
            read_examples-map texts json p.examples,
            field,
            form-title,
            form-description,
            form-input_format,
            form-output_format,
            form-enabled,
            json.as_string-string p.title,
            json.as_string-string p.description,
            json.as_string-string p.input_format,
            json.as_string-string p.output_format,
            laws.as_bool-boolean p.enabled,
          )
          refl

    slug_not_empty : is_empty p.id ≡ false
    unfolding valid_problem_slug
    slug_not_empty = ground (arith, fits.slug)

    form-has_names : library.has_names form ≡ true
    unfolding admin_problem_to_json
    form-has_names = laws.has_names-object _

    -- For a problem within the limits, the form that the administrator's page is given is accepted
    -- when it is sent back under the problem's id, and is read as the problem, without its hidden
    -- tests.
    pub parse_admin_problem-form :
        parse_admin_problem library form (some p.id) ≡ some (ok (record p { hidden_tests = [] }))
    unfolding parse_admin_problem parse_problem parse_fields parse_revised
    parse_admin_problem-form =
        rw
          (
            parse_admin_problem,
            form-has_names,
            slug_not_empty,
            parse_problem,
            form-has_fields,
            fits.slug,
            form-exceeds_size,
            form-positive_revision,
            parse_fields,
            parse_revised,
            field,
            form-difficulty,
            json.as_string-string (difficulty_name p.difficulty),
            parse_difficulty-difficulty_name p.difficulty,
          )
          (ap some form-parse_lists)
