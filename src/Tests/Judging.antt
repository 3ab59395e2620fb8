-- ===== src/Tests/Judging.antt =====
-- The judge of backend/src/problem-judge.cpp on a problem with two hidden tests, with an executor
-- that prints its input with Windows line ends and counts its runs.
use trainer.Prelude.{
  ℕ, suc, ◌≡◌, ◌↔◌, refl, subst, true, false, none, some, Option, List, [], ◌∷◌, ◌++◌, Bytes, codes,
  Result, ok, all_of, bytes_beq,
}
use trainer.Submission.{accepted, wrong_answer}
use trainer.Problem.{Problem, ProblemTestCase, easy}
use trainer.Judge.{
  ExecutionRequest, ExecutorResult, JudgeRequest, JudgeResult, judged, crashed, run_tests, run,
}
use trainer.Judge.Errors.{ExecutionResult, classify_runtime_error}
use trainer.Judge.Output.{normalize_output}
use trainer.Judge.Verdicts.{Judged, run_tests-Judged}
use trainer.Judge.Acceptance.{Accepts, run_accepted_iff}
use trainer.Judge.LineEnds.{to_crlf, normalize_output-to_crlf}

abbrev pub echo : ExecutionRequest → ℕ → ExecutorResult × ℕ
echo request runs = (
  ok (record {
    exit_code = 0;
    standard_output = request.standard_input ++ codes "\r\n";
    standard_error = [];
    timed_out = false;
    error_type = none;
  }),
  suc runs,
)

abbrev pub test_case : Bytes → Bytes → ProblemTestCase
test_case input output = record {
  input = input;
  expected_output = output;
  id = 1;
  position = 1;
  enabled = true;
  revision = 1;
}

abbrev two_tests : List ProblemTestCase
two_tests = test_case (codes "3") (codes "3\n") ∷ test_case (codes "4") (codes "5") ∷ []

abbrev problem : Problem
problem = record {
  id = codes "echo";
  title = [];
  description = [];
  input_format = [];
  output_format = [];
  difficulty = easy;
  tags = [];
  languages = [];
  examples = [];
  enabled = true;
  revision = 1;
  hidden_tests = two_tests;
}

abbrev pub request : JudgeRequest
request = record { problem_id = codes "echo"; language = codes "python"; source_code = [] }

abbrev catalogue : Bytes → Result Bytes (Option Problem)
catalogue id = ok (some problem)

-- The first test is passed, the second is not.
second_fails : run_tests echo request two_tests 0 ≡ (judged wrong_answer, 2)
unfolding run_tests trainer.Judge.case_result bytes_beq normalize_output codes
second_fails = refl

run_tests-Judged_example :
    let (r, s) = run_tests echo request two_tests 0 in Judged echo request two_tests 0 r s
run_tests-Judged_example = run_tests-Judged echo request two_tests 0

run_accepted_iff_example :
    ((run echo catalogue request 0).0 ≡ judged accepted)
    ↔ Accepts echo request (ok (some problem)) 0
run_accepted_iff_example = run_accepted_iff echo request catalogue 0

normalize_output-to_crlf_example :
    normalize_output (to_crlf (codes "1\n2\n")) ≡ normalize_output (codes "1\n2\n")
unfolding all_of codes
normalize_output-to_crlf_example = normalize_output-to_crlf (codes "1\n2\n") refl

abbrev failing : ℕ → Bytes → ExecutionResult
failing code error = record {
  exit_code = code;
  standard_output = [];
  standard_error = error;
  timed_out = false;
  error_type = none;
}

names_python_error :
    classify_runtime_error (failing 1 (codes "Traceback\n  x\nValueError: 3\n"))
    ≡ codes "Exception: ValueError"
unfolding classify_runtime_error codes all_of trainer.Prelude.ends_with
    trainer.Prelude.contains_bytes
names_python_error = refl

names_signal : classify_runtime_error (failing 139 []) ≡ codes "Terminated by SIGSEGV"
unfolding classify_runtime_error codes all_of trainer.Prelude.ends_with
    trainer.Prelude.contains_bytes
names_signal = refl

-- A program that ends with exit code 120 by itself is said to have printed too much.
names_exit_120 : classify_runtime_error (failing 120 []) ≡ codes "Output Limit Exceeded"
unfolding classify_runtime_error codes all_of trainer.Prelude.ends_with
    trainer.Prelude.contains_bytes
names_exit_120 = refl
