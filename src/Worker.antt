-- ===== src/Worker.antt =====
-- `SubmissionWorkerPool` (backend/src/submission-worker.cpp). The judge and the repository are
-- interfaces of the program, here operations on a world `S`. What the worker does between the
-- claim and the result is `settle`; `Exclusion` lets several workers take turns.
pub mod Settling
pub mod Draining
pub mod Held
pub mod Keeping
pub mod Exclusion
pub mod Pool
use trainer.Prelude.{ℕ, Option, none, some, Bytes, codes, Result, ok, err}
use trainer.Submission.{Verdict, runtime_error, SubmissionRecord, RepositoryError}
use trainer.Judge.{JudgeRequest, JudgeResult, judged, crashed, not_judged}

-- What the workers call. A judge that throws gives `none`; the repositories do not throw.
pub record Services (S : Type 0) : Type 0 where
  pub claim_next : S → Result RepositoryError (Option SubmissionRecord) × S
  pub complete : ℕ → Verdict → Option Bytes → S → Result RepositoryError SubmissionRecord × S
  pub fail : ℕ → Option Bytes → S → Result RepositoryError SubmissionRecord × S
  pub judge : JudgeRequest → S → Option JudgeResult × S

pub data WorkResult : Type 0 where
  processed idle repository_error : WorkResult

abbrev pub judge_request : SubmissionRecord → JudgeRequest
judge_request r = record {
  problem_id = r.problem_id;
  language = r.language;
  source_code = r.source_code;
}

module _ {S : Type 0} (services : Services S) where
  open services use {claim_next, complete, fail, judge}

  -- The λ `complete` of `process_one`.
  unfoldable pub complete_or_fail : ℕ → Verdict → Option Bytes → S → S
  complete_or_fail id verdict error_type s =
      let (result, s') = complete id verdict error_type s in
      elim result [ ok r ↦ s' | err e ↦ (fail id (some (codes "Result Persistence Error")) s').1 ]

  -- The body of `try` behind the call of the judge, and the handlers.
  unfoldable pub settle : ℕ → Option JudgeResult → S → S
  unfolding complete_or_fail
  settle id none s = (fail id (some (codes "Worker Error")) s).1
  settle id (some (not_judged message)) s = (fail id (some (codes "Sandbox Error")) s).1
  settle id (some (crashed type)) s = complete_or_fail id runtime_error (some type) s
  settle id (some (judged verdict)) s = complete_or_fail id verdict none s

  unfoldable pub process_one : S → WorkResult × S
  unfolding settle
  process_one s =
      let (claimed, s1) = claim_next s in
      elim claimed [
        | err e ↦ (repository_error, s1)
        | ok none ↦ (idle, s1)
        | ok (some submission) ↦
            let (result, s2) = judge (judge_request submission) s1 in
            (processed, settle submission.id result s2)
      ]
