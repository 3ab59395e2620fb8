-- ===== src/Worker/Keeping.antt =====
-- What a worker keeps of the world while it settles a submission (`process_one` of
-- backend/src/submission-worker.cpp): whatever completing and failing keep.
use trainer.Prelude.{ℕ, inl, inr, Result-cases, Option, none, some, Bytes}
use trainer.Submission.{Verdict}
use trainer.Judge.{JudgeResult, judged, crashed, not_judged}
use trainer.Worker.{Services, complete_or_fail, settle}

module _ {S : Type 0} (services : Services S) (id : ℕ) where
  open services use {complete, fail}

  complete_or_fail_keeps :
      (P : S → Type 0)
      → ((verdict : Verdict) (error_type : Option Bytes) (s : S)
          → P s
          → P (complete id verdict error_type s).1)
      → ((error_type : Option Bytes) (s : S) → P s → P (fail id error_type s).1)
      → (verdict : Verdict) (error_type : Option Bytes) (s : S) → P s
      → P (complete_or_fail services id verdict error_type s)
  unfolding complete_or_fail
  complete_or_fail_keeps P c f verdict error_type s h =
      elim (Result-cases (complete id verdict error_type s).0) [
        | inl (r, e) ↦ rw (e, complete_or_fail) (c verdict error_type s h)
        | inr (m, e) ↦ rw (e, complete_or_fail) (f _ _ (c verdict error_type s h))
      ]

  -- What completing and failing keep, settling keeps.
  pub settle_keeps :
      (P : S → Type 0)
      → ((verdict : Verdict) (error_type : Option Bytes) (s : S)
          → P s
          → P (complete id verdict error_type s).1)
      → ((error_type : Option Bytes) (s : S) → P s → P (fail id error_type s).1)
      → (result : Option JudgeResult) (s : S) → P s
      → P (settle services id result s)
  unfolding settle
  settle_keeps P c f none s h = f _ s h
  settle_keeps P c f (some (not_judged message)) s h = f _ s h
  settle_keeps P c f (some (crashed type)) s h = complete_or_fail_keeps P c f _ _ s h
  settle_keeps P c f (some (judged verdict)) s h = complete_or_fail_keeps P c f _ _ s h
