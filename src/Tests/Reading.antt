-- ===== src/Tests/Reading.antt =====
-- The queries of backend/src/sqlite-submission-repository.cpp on two submissions of user 7.
use trainer.Prelude.{
  ℕ, ◌-◌, ◌≡◌, ◌≤◌, refl, false, none, some, List, [], ◌∷◌, Bytes, codes, ok, take, length,
  count_where,
}
use trainer.Submission.{
  accepted, queued, failed, completed, SubmissionRecord, submission_status_name,
}
use trainer.Submission.Columns.{stored_status}
use trainer.Table.{Database, select_where}
use trainer.Sqlite.{works}
use trainer.Sqlite.Reads.{
  history, in_history, list_filtered, matches, SubmissionAdminFilter, status_parameter,
}
use trainer.Sqlite.Progress.{UserProgress, solved_days, progress}
use trainer.Sqlite.Completed.{Reports, all_work, progress_lem}
use trainer.Auth.{AuthUser}
use trainer.Service.{answer}
use trainer.Server.Profile.{ProfileBody, profile_of, profile}
use trainer.Server.Profiles.{Shows, profile-Shows}
use trainer.Sqlite.Ordering.{NewestFirst, Fits, Selected, history_lem, list_filtered_lem}

abbrev old_row : SubmissionRecord
old_row = record {
  id = 1;
  problem_id = codes "echo";
  language = codes "python";
  source_code = [];
  status = completed;
  verdict = some accepted;
  created_at = codes "2026-01-01";
  completed_at = some (codes "2026-01-01");
  user_id = some 7;
  error_type = none;
  retry_of = none;
}

abbrev new_row : SubmissionRecord
new_row = record old_row {
  id = 2;
  status = failed;
  verdict = none;
  created_at = codes "2026-01-02";
}

abbrev two_rows : Database
two_rows = record { submissions = new_row ∷ old_row ∷ []; next_id = 3; audit_log = [] }

abbrev only_failed : SubmissionAdminFilter
only_failed = record {
  status = some failed;
  error_type = none;
  language = none;
  problem_id = none;
  user_id = none;
  created_from = none;
  created_to = none;
}

history_in_order : history works 7 (codes "echo") two_rows ≡ ok (new_row ∷ old_row ∷ [])
unfolding history select_where trainer.Prelude.bytes_beq codes trainer.Sqlite.Reads.newer
    trainer.Sqlite.Reads.bytes_ltb trainer.Submission.Columns.read_record
    trainer.Submission.Columns.parse_status trainer.Submission.Columns.columns stored_status
    trainer.Submission.Columns.parse_verdict trainer.Submission.verdict_name trainer.Prelude.sort_by
history_in_order = refl

history_lem_example :
    (rows : List SubmissionRecord) × (history works 7 (codes "echo") two_rows ≡ ok rows)
    × Selected two_rows (λ r. (r.user_id ≡ some 7) × (r.problem_id ≡ codes "echo")) rows
history_lem_example = history_lem two_rows 7 (codes "echo")

failed_only : list_filtered works only_failed two_rows ≡ ok (new_row ∷ [])
unfolding list_filtered select_where trainer.Prelude.bytes_beq stored_status codes
    submission_status_name trainer.Submission.Columns.read_record
    trainer.Submission.Columns.parse_status trainer.Submission.Columns.columns
    trainer.Prelude.sort_by
failed_only = refl

list_filtered_lem_example :
    (rows : List SubmissionRecord) × (list_filtered works only_failed two_rows ≡ ok (take 500 rows))
    × (length (take 500 rows) ≤ 500)
    × NewestFirst (take 500 rows)
    × Selected two_rows (Fits only_failed) rows
list_filtered_lem_example = list_filtered_lem two_rows only_failed

-- The day of a time stamp, by its last digit.
abbrev last_digit : Bytes → ℕ
last_digit [] = 0
last_digit (c ∷ []) = c - 48
last_digit (c ∷ d ∷ cs) = last_digit (d ∷ cs)

one_day : solved_days last_digit 7 two_rows.submissions ≡ 1 ∷ []
unfolding solved_days codes
one_day = refl

progress_lem_example :
    (p : UserProgress) × (progress last_digit 0 all_work 7 two_rows ≡ ok p)
    × Reports last_digit 0 7 two_rows.submissions p
progress_lem_example = progress_lem last_digit 0 7 two_rows

abbrev user_7 : AuthUser
user_7 = record {
  id = 7;
  username = codes "ada";
  created_at = codes "2026-01-01";
  is_admin = false;
}

profile-Shows_example :
    (body : ProfileBody) × (profile
        (λ id. ok none)
        (ok user_7)
        (λ id. answer (progress last_digit 0 all_work id two_rows))
      ≡ profile_of body)
    × Shows (λ id. ok none) last_digit 0 user_7 two_rows body
profile-Shows_example = profile-Shows (λ id. ok none) last_digit 0 user_7 two_rows
