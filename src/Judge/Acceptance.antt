-- ===== src/Judge/Acceptance.antt =====
-- When `ProblemJudge::run` accepts.
use trainer.Prelude.{◌≡◌, ◌≢◌, ◌↔◌, refl, Option, none, some, List, [], ◌∷◌, Bytes, ok, err, Result}
use trainer.Submission.{accepted}
use trainer.Problem.{Problem, ProblemTestCase}
use trainer.Judge.Verdicts.{
  Passes, Decides, sandbox, timeout, crash, wrong, Judged, all_passed, passed, decided,
  run_tests-Judged, Judged-run_tests,
}
use trainer.Judge.{
  ExecutionRequest, ExecutorResult, JudgeRequest, JudgeResult, judged, request_for, run_tests,
  run_hidden, run_found, run,
}

module _ {S : Type 0} (execute : ExecutionRequest → S → ExecutorResult × S)
    (request : JudgeRequest) where
  -- Every test is passed, each run in the state that the one before it left.
  abbrev pub AllPass : List ProblemTestCase → S → Type 0
  AllPass [] s = Unit {0}
  AllPass (test ∷ tests) s =
      Passes test (execute (request_for execute request test) s).0
      × AllPass tests (execute (request_for execute request test) s).1

  decided_otherwise :
      (test : ProblemTestCase) (result : ExecutorResult) (r : JudgeResult)
      → Decides test result r
      → r ≢ judged accepted
  decided_otherwise test result r (sandbox m e q) h = cc
  decided_otherwise test result r (timeout x e t q) h = cc
  decided_otherwise test result r (crash x e t c q) h = cc
  decided_otherwise test result r (wrong x e t c o q) h = cc

  Judged-AllPass :
      {tests : List ProblemTestCase} {s s' : S} {r : JudgeResult}
      → Judged execute request tests s r s'
      → r ≡ judged accepted
      → AllPass tests s
  Judged-AllPass all_passed h = tt
  Judged-AllPass (passed p j) h = (p, Judged-AllPass j h)
  Judged-AllPass (decided d e) h = absurd (decided_otherwise _ _ _ d h)

  AllPass-run_tests :
      (tests : List ProblemTestCase) (s : S)
      → AllPass tests s
      → (s' : S) × Judged execute request tests s (judged accepted) s'
  AllPass-run_tests [] s h = (s, all_passed)
  AllPass-run_tests (test ∷ tests) s (p, rest) =
      let (s', j) = AllPass-run_tests tests (execute (request_for execute request test) s).1 rest in
      (s', passed p j)

  run_tests_accepted :
      (tests : List ProblemTestCase) (s : S)
      → ((run_tests execute request tests s).0 ≡ judged accepted) ↔ AllPass tests s
  run_tests_accepted tests s = (
    λ h. Judged-AllPass (run_tests-Judged execute request tests s) h,
    λ h. let (s', j) = AllPass-run_tests tests s h in cc (Judged-run_tests execute request j),
  )

  hidden_accepted :
      (tests : List ProblemTestCase) (s : S)
      → ((run_hidden execute request tests s).0 ≡ judged accepted)
        ↔ ((tests ≢ []) × AllPass tests s)
  unfolding run_hidden
  hidden_accepted [] s = (λ h. cc, λ h. absurd (h.0 refl))
  hidden_accepted (t ∷ ts) s = (
    λ h. (λ e. cc, (run_tests_accepted (t ∷ ts) s).0 h),
    λ h. (run_tests_accepted (t ∷ ts) s).1 h.1,
  )

  abbrev pub Accepts : Result Bytes (Option Problem) → S → Type 0
  Accepts (ok (some problem)) s = (problem.hidden_tests ≢ []) × AllPass problem.hidden_tests s
  Accepts _ s = ⊥

  found_accepted :
      (found : Result Bytes (Option Problem)) (s : S)
      → ((run_found execute request found s).0 ≡ judged accepted) ↔ Accepts found s
  unfolding run_found
  found_accepted (err message) s = (λ h. cc, λ h. absurd h)
  found_accepted (ok none) s = (λ h. cc, λ h. absurd h)
  found_accepted (ok (some problem)) s = hidden_accepted problem.hidden_tests s

  -- The verdict is Accepted exactly if the problem is found, has a hidden test, and the execution
  -- on each of them, run in order, ends in time with exit code 0 and the expected output up to
  -- line ends and trailing white space.
  pub run_accepted_iff :
      (find_for_judging : Bytes → Result Bytes (Option Problem)) (s : S)
      → ((run execute find_for_judging request s).0 ≡ judged accepted)
        ↔ Accepts (find_for_judging request.problem_id) s
  unfolding run
  run_accepted_iff find_for_judging s = found_accepted (find_for_judging request.problem_id) s
