-- ===== src/Judge.antt =====
-- `ProblemJudge` (backend/src/problem-judge.cpp): a submission is run on the hidden tests of its
-- problem, one after the other, and the first test that it does not pass decides.
-- The executor and the problem lookup are interfaces of the program, here parameters; the executor
-- is stateful.
pub mod Output
pub mod Errors
pub mod Verdicts
pub mod Acceptance
pub mod Blanks
pub mod LineEnds
use trainer.Prelude.{
  ℕ, Bool, not, Option, none, some, List, [], ◌∷◌, Bytes, codes, nat_eq, byte_eq, ◌==◌,
  if◌then◌else◌, Result, ok, err, bytes_beq,
}
use trainer.Submission.{Verdict, accepted, wrong_answer, time_limit_exceeded}
use trainer.Problem.{Problem, ProblemTestCase}
use Output.{normalize_output}
use Errors.{ExecutionResult, classify_runtime_error}

-- backend/include/algorithm-trainer/executor.h
pub record ExecutionRequest : Type 0 where
  pub language : Bytes
  pub source_code : Bytes
  pub standard_input : Bytes

-- An `ExecutorError` is its message.
abbrev pub ExecutorResult : Type 0
ExecutorResult = Result Bytes ExecutionResult

-- backend/include/algorithm-trainer/judge.h
pub record JudgeRequest : Type 0 where
  pub problem_id : Bytes
  pub language : Bytes
  pub source_code : Bytes

-- The variant of `Verdict`, `RuntimeError` and `JudgeError`.
pub data JudgeResult : Type 0 where
  judged : Verdict → JudgeResult
  crashed : Bytes → JudgeResult
  not_judged : Bytes → JudgeResult

-- What one execution says: the result to return, or none to go on to the next test.
unfoldable pub case_result : ProblemTestCase → ExecutorResult → Option JudgeResult
case_result test (err message) = some (not_judged message)
case_result test (ok execution) =
    if execution.timed_out
    then some (judged time_limit_exceeded)
    else if not (execution.exit_code == 0)
    then some (crashed (classify_runtime_error execution))
    else if not
        (normalize_output execution.standard_output == normalize_output test.expected_output)
    then some (judged wrong_answer)
    else none

module _ {S : Type 0} (execute : ExecutionRequest → S → ExecutorResult × S) where
  abbrev pub request_for : JudgeRequest → ProblemTestCase → ExecutionRequest
  request_for request test = record {
    language = request.language;
    source_code = request.source_code;
    standard_input = test.input;
  }

  -- The loop over the hidden tests.
  unfoldable pub run_tests : JudgeRequest → List ProblemTestCase → S → JudgeResult × S
  run_tests request [] s = (judged accepted, s)
  run_tests request (test ∷ tests) s =
      let (result, s') = execute (request_for request test) s in
      elim (case_result test result) [ some stop ↦ (stop, s') | none ↦ run_tests request tests s' ]

  unfoldable pub run_hidden : JudgeRequest → List ProblemTestCase → S → JudgeResult × S
  unfolding run_tests
  run_hidden request [] s = (not_judged (codes "Problem has no enabled hidden tests"), s)
  run_hidden request (test ∷ tests) s = run_tests request (test ∷ tests) s

  unfoldable pub run_found : JudgeRequest → Result Bytes (Option Problem) → S → JudgeResult × S
  unfolding run_hidden
  run_found request (err message) s = (not_judged message, s)
  run_found request (ok none) s = (not_judged (codes "Unknown problem"), s)
  run_found request (ok (some problem)) s = run_hidden request problem.hidden_tests s

  unfoldable pub run : (Bytes → Result Bytes (Option Problem)) → JudgeRequest → S → JudgeResult × S
  unfolding run_found
  run find_for_judging request s = run_found request (find_for_judging request.problem_id) s
