-- ===== src/Tests/Queue.antt =====
-- The queue of backend/src/sqlite-submission-repository.cpp on a history of calls: user 7 submits
-- twice, a worker claims and completes the first submission, and the second is claimed.
use trainer.Prelude.{
  ℕ, ◌≤◌, ◌≡◌, ◌≢◌, refl, subst, true, false, none, some, List, [], ◌∷◌, Bytes, codes, bytes_beq,
  ok, err, arith, ◌⊎◌,
}
use trainer.Submission.{accepted, SubmissionRequest, SubmissionRecord, running, completed, failed}
use trainer.Table.{Database, IdsBelow, find_id}
use trainer.Sqlite.{works, fails, SubmissionQueueLimits, create, finish_row, claim_next}
use trainer.Sqlite.Admission.{Admitted, create-Admitted}
use trainer.Sqlite.Claiming.{Claimed, Nothing, claim_next_lem}
use trainer.Sqlite.Retry.{RetryOutcomes, retry}
use trainer.Sqlite.Retrying.{Retried, retry_lem}
use trainer.Sqlite.Calls.{Call, creates, completes, claims, recovers, run, empty}
use trainer.Sqlite.Invariant.{Inv, Inv-empty}
use trainer.Sqlite.Preservation.{run-Inv}
use trainer.Sqlite.Finality.{Finished, run-Finished}

abbrev limits : SubmissionQueueLimits
limits = record {
  maximum_active_submissions = 3;
  maximum_active_submissions_per_user = 2;
  maximum_running_submissions_per_user = 1;
}

abbrev request : SubmissionRequest
request = record { problem_id = []; language = []; code = []; user_id = some 7 }

abbrev first_calls : List Call
first_calls =
    creates works works [] request ∷ claims works ∷ completes works [] 1 accepted none ∷ []

abbrev later_calls : List Call
later_calls = creates works works [] request ∷ claims works ∷ recovers works ∷ []

abbrev finished_row : SubmissionRecord
finished_row = record {
  id = 1;
  problem_id = [];
  language = [];
  source_code = [];
  status = completed;
  verdict = some accepted;
  created_at = [];
  completed_at = some [];
  user_id = some 7;
  error_type = none;
  retry_of = none;
}

abbrev after_first : Database
after_first = record { submissions = finished_row ∷ []; next_id = 2; audit_log = [] }

run_first : run limits first_calls empty ≡ after_first
unfolding run trainer.Sqlite.Calls.step trainer.Sqlite.complete find_id claim_next
    trainer.Table.oldest_where create trainer.Prelude.count_where trainer.Table.update_id
run_first = refl

-- The user's second submission, claimed.
abbrev running_row : SubmissionRecord
running_row = record finished_row { id = 2; status = running; verdict = none; completed_at = none }

abbrev one_running : Database
one_running = record { submissions = running_row ∷ finished_row ∷ []; next_id = 3; audit_log = [] }

one_running-reached :
    run limits (creates works works [] request ∷ claims works ∷ []) after_first ≡ one_running
unfolding run trainer.Sqlite.Calls.step claim_next trainer.Table.oldest_where create
    trainer.Prelude.count_where trainer.Table.update_id
one_running-reached = refl

after_first-Inv : Inv limits after_first
after_first-Inv = subst (Inv limits) run_first (run-Inv limits first_calls empty (Inv-empty limits))

one_running-Inv : Inv limits one_running
one_running-Inv = subst (Inv limits) one_running-reached (
    run-Inv limits (creates works works [] request ∷ claims works ∷ []) after_first after_first-Inv)

run-Inv_example : Inv limits (run limits first_calls empty)
run-Inv_example = run-Inv limits first_calls empty (Inv-empty limits)

run-Finished_example : Finished 1 finished_row (run limits later_calls after_first)
unfolding find_id
run-Finished_example =
    run-Finished 1 finished_row limits later_calls after_first after_first-Inv
      (record { stored = refl; ended = refl })

claim_next_lem_example :
    Nothing limits one_running ⊎ ((r : SubmissionRecord) × Claimed limits one_running r)
claim_next_lem_example = claim_next_lem limits one_running one_running-Inv.fresh

create-Admitted_example :
    Admitted limits request one_running [] (create limits works works [] request one_running)
create-Admitted_example = create-Admitted limits request one_running []

abbrev failed_row : SubmissionRecord
failed_row = record running_row { status = failed; completed_at = some [] }

abbrev one_failed : Database
one_failed = record { submissions = failed_row ∷ []; next_id = 3; audit_log = [] }

abbrev all_work : RetryOutcomes
all_work = record { begin = none; insertion = works; auditing = works; commit = none }

retry_lem_example : Retried limits [] 2 9 one_failed (retry limits all_work [] 2 9 one_failed)
retry_lem_example = retry_lem limits [] 2 9 one_failed all_work
