-- ===== src/Catalogue.antt =====
-- The tables behind the problem repositories (migrations/007-create-problems.sql and
-- 008-add-admin-operations.sql) and the tests on their rows that the statements of
-- backend/src/sqlite-problem-repository.cpp make. Problems stand in the order of their rowids;
-- the primary key, the unique position within a problem and the foreign key with ON DELETE CASCADE
-- are what the operations of Writing ask for and do.
pub mod Columns
pub mod Writing
pub mod Reading
pub mod Seeding
pub mod Calls
pub mod Invariant
pub mod Updating
pub mod Seeded
pub mod Reseeding
pub mod Preservation
pub mod Revisions
pub mod Concurrency
pub mod RoundTrip
pub mod HiddenTests
use trainer.Prelude.{ℕ, Bool, ◌&&◌, List, Bytes, nat_eq, byte_eq, ◌==◌, ltb, count_where}

pub record ProblemRow : Type 0 where
  pub id : Bytes
  pub title : Bytes
  pub description : Bytes
  pub input_format : Bytes
  pub output_format : Bytes
  pub difficulty : Bytes
  pub tags_json : Bytes
  pub languages_json : Bytes
  pub examples_json : Bytes
  pub enabled : Bool
  pub created_at : Bytes
  pub updated_at : Bytes
  pub revision : ℕ

pub record TestRow : Type 0 where
  pub id : ℕ
  pub problem_id : Bytes
  pub input : Bytes
  pub expected_output : Bytes
  pub position : ℕ
  pub enabled : Bool
  pub revision : ℕ

pub record Catalogue : Type 0 where
  pub problems : List ProblemRow
  pub tests : List TestRow
  pub next_test_id : ℕ

-- backend/include/algorithm-trainer/problem-repository.h
pub record ProblemRepositoryError : Type 0 where
  pub message : Bytes

-- WHERE id = ?
abbrev pub has_id : Bytes → ProblemRow → Bool
has_id id r = r.id == id

-- WHERE id = ? AND revision = ?
abbrev pub has_revision : Bytes → ℕ → ProblemRow → Bool
has_revision id revision r = (r.id == id) && (r.revision == revision)

-- WHERE problem_id = ?
abbrev pub test_of : Bytes → TestRow → Bool
test_of problem_id t = t.problem_id == problem_id

abbrev pub test_at : Bytes → ℕ → TestRow → Bool
test_at problem_id position t = (t.problem_id == problem_id) && (t.position == position)

-- WHERE id = ? AND problem_id = ?
abbrev pub test_in : Bytes → ℕ → TestRow → Bool
test_in problem_id id t = (t.id == id) && (t.problem_id == problem_id)

-- ... AND revision = ?
abbrev pub test_revision : Bytes → ℕ → ℕ → TestRow → Bool
test_revision problem_id id revision t =
    ((t.id == id) && (t.problem_id == problem_id)) && (t.revision == revision)

-- EXISTS.
abbrev pub any_where {ℓ} : {A : Type ℓ} → (A → Bool) → List A → Bool
any_where p rows = ltb 0 (count_where p rows)
