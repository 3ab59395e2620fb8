-- ===== src/Problem.antt =====
-- The data of a problem: backend/include/algorithm-trainer/problem.h, and `difficulty_name` of
-- backend/src/problem.cpp.
use trainer.Prelude.{ℕ, Bool, List, Bytes, codes}

pub data ProblemDifficulty : Type 0 where
  easy medium hard : ProblemDifficulty

pub record ProblemExample : Type 0 where
  pub input : Bytes
  pub output : Bytes

pub record ProblemTestCase : Type 0 where
  pub input : Bytes
  pub expected_output : Bytes
  pub id : ℕ
  pub position : ℕ
  pub enabled : Bool
  pub revision : ℕ

pub record Problem : Type 0 where
  pub id : Bytes
  pub title : Bytes
  pub description : Bytes
  pub input_format : Bytes
  pub output_format : Bytes
  pub difficulty : ProblemDifficulty
  pub tags : List Bytes
  pub languages : List Bytes
  pub examples : List ProblemExample
  pub enabled : Bool
  pub revision : ℕ
  pub hidden_tests : List ProblemTestCase

unfoldable pub difficulty_name : ProblemDifficulty → Bytes
difficulty_name easy = codes "Easy"
difficulty_name medium = codes "Medium"
difficulty_name hard = codes "Hard"
