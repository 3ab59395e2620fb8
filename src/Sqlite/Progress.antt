-- ===== src/Sqlite/Progress.antt =====
-- `SQLiteSubmissionRepository::progress` (backend/src/sqlite-submission-repository.cpp): a user's
-- totals, the problem tried last, the streak of days and the problems solved. The engine's `date`
-- and `julianday` are an argument that gives the day of a time stamp; so is yesterday.
use trainer.Prelude.{
  ℕ, suc, ◌+◌, ◌-◌, Bool, true, false, ◌&&◌, ltb, Option, none, some, List, [], ◌∷◌, Bytes, codes,
  nat_eq, byte_eq, option_nat_eq, ◌==◌, count_where, count_one, map, sort_by, if◌then◌else◌, Result,
  ok, err,
}
use trainer.Submission.{Verdict, accepted, SubmissionRecord, RepositoryError, plain_error}
use trainer.Table.{Database, select_where}
use trainer.Sqlite.{Outcome, works, invalid, fails, database_error}
use trainer.Sqlite.Reads.{newest_first, bytes_ltb}

-- backend/include/algorithm-trainer/submission-record.h
pub record CompletedProblem : Type 0 where
  pub problem_id : Bytes
  pub completed_at : Bytes

pub record UserProgress : Type 0 where
  pub total_submissions : ℕ
  pub accepted_submissions : ℕ
  pub most_recent_submission_problem_id : Option Bytes
  pub current_streak_days : ℕ
  pub completed_problems : List CompletedProblem

-- The outcomes of the four statements.
pub record ProgressOutcomes : Type 0 where
  pub totals : Outcome
  pub most_recent : Outcome
  pub streak : Outcome
  pub completed : Outcome

abbrev pub of_user : ℕ → SubmissionRecord → Bool
of_user user r = r.user_id == some user

is_accepted : Option Verdict → Bool
is_accepted none = false
is_accepted (some accepted) = true
is_accepted (some _) = false

-- verdict = 'Accepted'
unfoldable pub accepted_row : SubmissionRecord → Bool
unfolding is_accepted
accepted_row r = is_accepted r.verdict

-- completed_at of the user's accepted rows, where it is not NULL.
unfoldable pub completion_times : ℕ → List SubmissionRecord → List (Bytes × Bytes)
unfolding accepted_row
completion_times user [] = []
completion_times user (r ∷ rows) =
    let rest = completion_times user rows in
    if of_user user r && accepted_row r
    then elim r.completed_at [ none ↦ rest | some time ↦ (r.problem_id, time) ∷ rest ]
    else rest

abbrev pub first_problem : List SubmissionRecord → Option Bytes
first_problem [] = none
first_problem (r ∷ rows) = some r.problem_id

-- DISTINCT, on days in falling order.
unfoldable pub distinct : List ℕ → List ℕ
distinct [] = []
distinct (d ∷ []) = d ∷ []
distinct (d ∷ e ∷ days) = let rest = distinct (e ∷ days) in if d == e then rest else d ∷ rest

-- The common table expression `days`, ORDER BY day DESC.
unfoldable pub solved_days : (Bytes → ℕ) → ℕ → List SubmissionRecord → List ℕ
unfolding completion_times distinct sort_by
solved_days day user rows =
    distinct (sort_by (λ d e. ltb e d) (map (λ c. day c.1) (completion_times user rows)))

-- COUNT(CASE WHEN distance = position THEN 1 END), from a position on.
unfoldable pub in_place : ℕ → ℕ → List ℕ → ℕ
in_place last position [] = 0
in_place last position (d ∷ days) =
    count_one ((last - d) == position) + in_place last (suc position) days

-- 0 where the last day lies before yesterday, or there is none.
unfoldable pub streak_of : ℕ → List ℕ → ℕ
unfolding in_place
streak_of yesterday [] = 0
streak_of yesterday (last ∷ days) = if ltb last yesterday then 0 else in_place last 0 (last ∷ days)

-- What `earlier` says of two time stamps is the engine's comparison.
module _ (earlier : Bytes → Bytes → Bool) where
  -- GROUP BY problem_id with MIN(completed_at).
  unfoldable pub group_minimum : Bytes → Bytes → List CompletedProblem → List CompletedProblem
  group_minimum problem_id time [] = record { problem_id = problem_id; completed_at = time } ∷ []
  group_minimum problem_id time (c ∷ groups) =
      let rest = group_minimum problem_id time groups in
      if c.problem_id == problem_id
      then (if earlier time c.completed_at then record c { completed_at = time } else c) ∷ groups
      else c ∷ rest

  unfoldable pub groups_of : List (Bytes × Bytes) → List CompletedProblem
  unfolding group_minimum
  groups_of [] = []
  groups_of ((problem_id, time) ∷ times) = group_minimum problem_id time (groups_of times)

  -- ORDER BY MIN(completed_at) DESC; among equal times the engine may take any order.
  unfoldable pub completed_problems_of : ℕ → List SubmissionRecord → List CompletedProblem
  unfolding groups_of completion_times sort_by
  completed_problems_of user rows =
      sort_by (λ a b. earlier b.completed_at a.completed_at)
        (groups_of (completion_times user rows))

-- A statement, and what follows if it works.
abbrev behind :
    Bytes → Outcome → Result RepositoryError UserProgress → Result RepositoryError UserProgress
behind operation (invalid e) next = err (plain_error e)
behind operation (fails e) next = err (database_error operation e)
behind operation works next = next

unfoldable pub progress :
    (Bytes → ℕ) → ℕ → ProgressOutcomes → ℕ → Database → Result RepositoryError UserProgress
unfolding solved_days streak_of completed_problems_of accepted_row database_error
progress day yesterday o user db = behind (codes "Could not retrieve user activity") o.totals (
    behind (codes "Could not retrieve most recent submission problem") o.most_recent (
      behind (codes "Could not retrieve user streak") o.streak (
        behind (codes "Could not retrieve completed problems") o.completed (
          ok (record {
            total_submissions = count_where (of_user user) db.submissions;
            accepted_submissions =
                count_where (λ r. of_user user r && accepted_row r) db.submissions;
            most_recent_submission_problem_id =
                first_problem (newest_first (select_where (of_user user) db.submissions));
            current_streak_days = streak_of yesterday (solved_days day user db.submissions);
            completed_problems = completed_problems_of bytes_ltb user db.submissions;
          })))))
