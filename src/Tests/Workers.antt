-- ===== src/Tests/Workers.antt =====
-- The workers of backend/src/submission-worker.cpp on small databases.
use trainer.Prelude.{
  ℕ, ◌≡◌, refl, true, none, some, List, [], ◌∷◌, Bytes, codes, Option, ok, arith, count_where,
}
use trainer.Submission.{accepted, SubmissionRequest, SubmissionRecord, running, queued}
use trainer.Judge.{JudgeRequest, JudgeResult, judged, not_judged}
use trainer.Table.{Database, find_id, active_row}
use trainer.Sqlite.{works, SubmissionQueueLimits}
use trainer.Sqlite.Calls.{empty}
use trainer.Sqlite.Invariant.{Inv-empty}
use trainer.Worker.{settle}
use trainer.Worker.Draining.{Quiet, Stays, rounds, rounds-Quiet}
use trainer.Worker.Settling.{failed_row, settled, settle_lem}
use trainer.Postgres as Server
use trainer.Postgres.Histories.{asks_create, serve, postgres_services}
use trainer.Tests.Serving.{committed}
use trainer.Worker.Exclusion.{
  Shared, requests, takes, settles, Reach, here, next, IsExclusive, Reach-IsExclusive,
}

abbrev limits : SubmissionQueueLimits
limits = record {
  maximum_active_submissions = 3;
  maximum_active_submissions_per_user = 2;
  maximum_running_submissions_per_user = 1;
}

abbrev taken : SubmissionRecord
taken = record {
  id = 1;
  problem_id = codes "echo";
  language = codes "python";
  source_code = [];
  status = running;
  verdict = none;
  created_at = [];
  completed_at = none;
  user_id = some 7;
  error_type = none;
  retry_of = none;
}

abbrev one_taken : Database
one_taken = record { submissions = taken ∷ []; next_id = 2; audit_log = [] }

abbrev accepting : JudgeRequest → Option JudgeResult
accepting request = some (judged accepted)

taken_stored : find_id 1 one_taken.submissions ≡ some taken
unfolding find_id
taken_stored = refl

settle_lem_example :
    find_id 1
      (settled 1 taken one_taken taken_stored refl limits [] accepting works works
        (some (not_judged []))).submissions
    ≡ some (failed_row [] (codes "Sandbox Error") taken)
settle_lem_example =
    settle_lem 1 taken one_taken taken_stored refl limits [] accepting (some (not_judged []))

-- User 7 submits, a worker takes the submission and settles it.
abbrev request : SubmissionRequest
request = record { problem_id = []; language = []; code = []; user_id = some 7 }

abbrev start : Shared
start = record { db = empty; held = [] }

abbrev submitted : Database
submitted = serve limits (asks_create committed none [] request) empty

abbrev claimed : Database
claimed = (Server.claim_next limits committed submitted).1

abbrev settled_at_last : Database
settled_at_last =
    settle (postgres_services limits committed none none [] (λ r. some (judged accepted))) 1
      (some (judged accepted)) claimed

abbrev row : SubmissionRecord
row = record taken { problem_id = []; language = [] }

row_claimed : (Server.claim_next limits committed submitted).0 ≡ ok (some row)
unfolding Server.claim_next trainer.Table.oldest_where serve Server.create count_where
    trainer.Postgres.Decoding.record_of trainer.Prelude.bytes_beq trainer.Submission.Columns.columns
    trainer.Submission.Columns.stored_status codes
row_claimed = refl

path : Reach limits start (record { db = settled_at_last; held = [] })
path =
    next
      (next (next here (requests (asks_create committed none [] request) tt))
        (takes committed row row_claimed))
      (settles committed none none [] (some (judged accepted)) [] [] 1 refl)

Reach-IsExclusive_example : IsExclusive limits (record { db = settled_at_last; held = [] })
Reach-IsExclusive_example =
    Reach-IsExclusive limits start (record { db = settled_at_last; held = [] }) path
      (record { consistent = Inv-empty limits; running = tt; distinct = tt })

-- Two submissions of one user, who may run one.
abbrev two_queued : Database
two_queued = record {
  submissions = record taken { id = 2; status = queued } ∷ record taken { status = queued } ∷ [];
  next_id = 3;
  audit_log = [];
}

two_queued-Quiet : Quiet limits [] accepting (omega arith) two_queued
unfolding trainer.Prelude.count_where
two_queued-Quiet = record { fresh = (omega arith, (omega arith, tt)); still = refl }

rounds-Quiet_example :
    Quiet limits [] accepting (omega arith) (rounds limits [] accepting (omega arith) 2 two_queued)
    × (count_where active_row (rounds limits [] accepting (omega arith) 2 two_queued).submissions
        ≡ 0)
    × Stays limits [] accepting
        (omega arith)
        two_queued
        (rounds limits [] accepting (omega arith) 2 two_queued)
unfolding count_where
rounds-Quiet_example =
    rounds-Quiet limits [] accepting (omega arith) 2 two_queued two_queued-Quiet refl
