-- ===== src/Tests/Serving.antt =====
-- The repository of backend/src/postgresql-submission-repository.cpp: a submission is created and
-- claimed, and a commit fails.
use trainer.Prelude.{◌≡◌, refl, true, false, none, some, List, [], ◌∷◌, codes}
use trainer.Submission.{SubmissionRequest}
use trainer.Submission.Columns.{Columns}
use trainer.Table.{Database}
use trainer.Sqlite.{SubmissionQueueLimits}
use trainer.Sqlite.Calls.{empty}
use trainer.Sqlite.Invariant.{Inv, Inv-empty}
use trainer.Postgres.{LockedReplies}
use trainer.Postgres.Histories.{ServerCall, asks_create, asks_claim, serve_all, serve_all-Inv}

abbrev limits : SubmissionQueueLimits
limits = record {
  maximum_active_submissions = 3;
  maximum_active_submissions_per_user = 2;
  maximum_running_submissions_per_user = 1;
}

abbrev request : SubmissionRequest
request = record {
  problem_id = codes "echo";
  language = codes "python";
  code = [];
  user_id = some 7;
}

abbrev pub committed : LockedReplies
committed = record { begins = true; locks = true; statement = none; commits = true; drawn = 0 }

abbrev rolled_back : LockedReplies
rolled_back = record { begins = true; locks = true; statement = none; commits = false; drawn = 1 }

abbrev calls : List ServerCall
calls =
    asks_create committed none [] request
    ∷ asks_create rolled_back none [] request
    ∷ asks_claim committed
    ∷ []

abbrev after_calls : Database
after_calls = serve_all limits calls empty

-- The second creation is rolled back, and its id is skipped.
next_id_skipped : after_calls.next_id ≡ 3
unfolding serve_all trainer.Postgres.create trainer.Postgres.claim_next trainer.Table.oldest_where
    trainer.Prelude.count_where
next_id_skipped = refl

serve_all-Inv_example : Inv limits after_calls
serve_all-Inv_example = serve_all-Inv limits calls empty (Inv-empty limits)

abbrev unknown_verdict : Columns
unknown_verdict = record {
  id = 1;
  problem_id = [];
  language = [];
  source_code = [];
  status = codes "completed";
  verdict = some (codes "Maybe");
  created_at = [];
  completed_at = none;
  user_id = none;
  error_type = none;
  retry_of = none;
}
