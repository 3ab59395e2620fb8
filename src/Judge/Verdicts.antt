-- ===== src/Judge/Verdicts.antt =====
-- What the verdict of `ProblemJudge::run` says of the executions on the hidden tests.
use trainer.Prelude.{
  ◌≡◌, ◌≢◌, refl, ◌⊎◌, inl, inr, true, false, Bool-cases, none, some, List, [], ◌∷◌, Bytes, arith,
  ok, err, bytes_beq_iff, nat_eq, byte_eq, ◌==◌,
}
use trainer.Submission.{accepted, wrong_answer, time_limit_exceeded}
use trainer.Problem.{ProblemTestCase}
use trainer.Judge.Output.{normalize_output}
use trainer.Judge.Errors.{ExecutionResult, classify_runtime_error}
use trainer.Judge.{
  ExecutionRequest, ExecutorResult, JudgeRequest, JudgeResult, judged, crashed, not_judged,
  case_result, request_for, run_tests,
}

-- The execution ends in time with exit code 0 and the expected output, up to line ends and
-- trailing white space.
pub record Passes (test : ProblemTestCase) (result : ExecutorResult) : Type 0 where
  pub execution : ExecutionResult
  pub ran : result ≡ ok execution
  pub in_time : execution.timed_out ≡ false
  pub exit_zero : execution.exit_code ≡ 0
  pub same_output :
      normalize_output execution.standard_output ≡ normalize_output test.expected_output

-- The four ways in which a test decides the result.
pub data Decides (test : ProblemTestCase) (result : ExecutorResult) (r : JudgeResult) : Type 0 where
  sandbox :
      (message : Bytes) → result ≡ err message → r ≡ not_judged message → Decides test result r
  timeout :
      (e : ExecutionResult)
      → result ≡ ok e
      → e.timed_out ≡ true
      → r ≡ judged time_limit_exceeded
      → Decides test result r
  crash :
      (e : ExecutionResult)
      → result ≡ ok e
      → e.timed_out ≡ false
      → e.exit_code ≢ 0
      → r ≡ crashed (classify_runtime_error e)
      → Decides test result r
  wrong :
      (e : ExecutionResult)
      → result ≡ ok e
      → e.timed_out ≡ false
      → e.exit_code ≡ 0
      → normalize_output e.standard_output ≢ normalize_output test.expected_output
      → r ≡ judged wrong_answer
      → Decides test result r

case_result_lem :
    (test : ProblemTestCase) (result : ExecutorResult)
    → ((case_result test result ≡ none) × Passes test result)
      ⊎ ((r : JudgeResult) × (case_result test result ≡ some r) × Decides test result r)
unfolding case_result
case_result_lem test (err message) = inr (not_judged message, refl, sandbox message refl refl)
case_result_lem test (ok e) = elim (Bool-cases e.timed_out) [
  | inl t ↦ inr (judged time_limit_exceeded, ground (arith, t), timeout e refl t refl)
  | inr t ↦ elim (Bool-cases (e.exit_code == 0)) [
    | inr c ↦ inr (
      crashed (classify_runtime_error e),
      ground (arith, t, c),
      crash e refl t (λ z. ground (arith, c, z)) refl,
    )
    | inl c ↦
        elim (Bool-cases
          (normalize_output e.standard_output == normalize_output test.expected_output)) [
            | inl o ↦ inl (
              ground (arith, t, c, o),
              record {
                execution = e;
                ran = refl;
                in_time = t;
                exit_zero = ground (arith, c);
                same_output = (bytes_beq_iff _ _).0 o;
              },
            )
            | inr o ↦ inr (
              judged wrong_answer,
              ground (arith, t, c, o),
              wrong e refl t (ground (arith, c)) (λ q. cc (o, (bytes_beq_iff _ _).1 q)) refl,
            )
          ]
  ]
]

pub Decides-case_result :
    (test : ProblemTestCase) (result : ExecutorResult) (r : JudgeResult)
    → Decides test result r
    → case_result test result ≡ some r
unfolding case_result
Decides-case_result test result r (sandbox message e q) = rw (e, q, case_result)
Decides-case_result test result r (timeout x e t q) = rw (e, q, case_result, t)
Decides-case_result test result r (crash x e t c q) = rw (e, q, case_result) (ground (arith, t, c))
Decides-case_result test result r (wrong x e t c o q) =
    rw (e, q, case_result)
      (ground (
        arith,
        t,
        c,
        o,
        bytes_beq_iff (normalize_output x.standard_output) (normalize_output test.expected_output),
      ))

pub Passes-case_result :
    (test : ProblemTestCase) (result : ExecutorResult)
    → Passes test result
    → case_result test result ≡ none
unfolding case_result
Passes-case_result test result p =
    rw (p.ran, case_result)
      (ground (
        arith,
        p,
        bytes_beq_iff (normalize_output p.execution.standard_output)
            (normalize_output test.expected_output),
      ))

module _ {S : Type 0} (execute : ExecutionRequest → S → ExecutorResult × S)
    (request : JudgeRequest) where
  -- The tests are run in order, each in the state that the one before it left, up to the first
  -- that decides.
  pub data Judged : List ProblemTestCase → S → JudgeResult → S → Type 0 where
    all_passed : {s : S} → Judged [] s (judged accepted) s
    passed :
        {test : ProblemTestCase} {tests : List ProblemTestCase} {s s' : S} {r : JudgeResult}
        → Passes test (execute (request_for execute request test) s).0
        → Judged tests (execute (request_for execute request test) s).1 r s'
        → Judged (test ∷ tests) s r s'
    decided :
        {test : ProblemTestCase} {tests : List ProblemTestCase} {s s' : S} {r : JudgeResult}
        → Decides test (execute (request_for execute request test) s).0 r
        → s' ≡ (execute (request_for execute request test) s).1
        → Judged (test ∷ tests) s r s'

  -- The loop over the hidden tests, from any state of the executor, gives a result and a state that
  -- `Judged` relates: the tests are passed up to the first that decides, and none is run behind it.
  pub run_tests-Judged :
      (tests : List ProblemTestCase) (s : S)
      → Judged tests s (run_tests execute request tests s).0 (run_tests execute request tests s).1
  unfolding run_tests
  run_tests-Judged [] s = all_passed
  run_tests-Judged (test ∷ tests) s =
      elim (case_result_lem test (execute (request_for execute request test) s).0) [
        | inl (e, p) ↦
            rw (e, run_tests)
              (passed p (run_tests-Judged tests (execute (request_for execute request test) s).1))
        | inr (r, e, d) ↦ rw (e, run_tests) (decided d refl)
      ]

  -- Conversely, a result and a state that `Judged` relates to the tests are those that the loop
  -- gives: no other result is right.
  pub Judged-run_tests :
      {tests : List ProblemTestCase} {s s' : S} {r : JudgeResult}
      → Judged tests s r s'
      → run_tests execute request tests s ≡ (r, s')
  unfolding run_tests
  Judged-run_tests all_passed = refl
  Judged-run_tests (passed {test = test} {s = s} p j) =
      rw (Passes-case_result test (execute (request_for execute request test) s).0 p, run_tests)
        (Judged-run_tests j)
  Judged-run_tests (decided {test = test} {s = s} {r = r} d e) =
      rw (Decides-case_result test (execute (request_for execute request test) s).0 r d, run_tests)
        (rw e)
