-- ===== src/Sqlite/Completed.antt =====
-- The completed problems that `progress` reports (backend/src/sqlite-submission-repository.cpp),
-- and the whole answer.
use trainer.Prelude.{
  ℕ, ◌≤◌, ◌≡◌, refl, ◌∙◌, Bool, false, ◌&&◌, List, [], ◌∷◌, Bytes, arith, nat_eq, byte_eq, ltb,
  count_where, count_one, count-sort_by, IsSortedBy, sort_by-IsSortedBy, inl, inr, Bool-cases,
  Option-cases, option_nat_eq, none, some, ◌==◌, ok,
}
use trainer.Submission.{SubmissionRecord}
use trainer.Table.{Database}
use trainer.Sqlite.{works}
use trainer.Sqlite.Reads.{bytes_ltb}
use trainer.Sqlite.Ordering.{bytes_ltb_asym}
use trainer.Sqlite.Progress.{
  completion_times, of_user, accepted_row, UserProgress, groups_of, completed_problems_of, progress,
  ProgressOutcomes,
}
use trainer.Sqlite.Streaks.{HasStreak, solved, streak_lem}
use trainer.Sqlite.Groups.{completed_later, of_problem, count-groups_of, count_mono_and}
use trainer.Sqlite.Earliest.{AllFirst, groups_of-AllFirst, sort_by-AllFirst}

-- A row of the user that is accepted, and whose problem and completion time pass the test.
abbrev pub timed_row : ℕ → (Bytes × Bytes → Bool) → SubmissionRecord → Bool
timed_row user test r =
    of_user user r
    && (accepted_row r
        && elim r.completed_at [ none ↦ false | some time ↦ test (r.problem_id, time) ])

count-completion_times :
    (user : ℕ) (test : Bytes × Bytes → Bool) (rows : List SubmissionRecord)
    → count_where test (completion_times user rows) ≡ count_where (timed_row user test) rows
unfolding count_where completion_times
count-completion_times user test [] = refl
count-completion_times user test (r ∷ rows) = elim (Bool-cases (of_user user r)) [
  | inr u ↦ rw u (omega (arith, count-completion_times user test rows))
  | inl u ↦ elim (Bool-cases (accepted_row r)) [
    | inr a ↦ rw (u, a) (omega (arith, count-completion_times user test rows))
    | inl a ↦ elim (Option-cases r.completed_at) [
      | inl e ↦ rw (u, a, e) (omega (arith, count-completion_times user test rows))
      | inr (time, e) ↦ rw (u, a, e) (omega (arith, count-completion_times user test rows))
    ]
  ]
]

-- What the answer says of the user's problems and days.
pub record Reports (day : Bytes → ℕ) (yesterday user : ℕ) (rows : List SubmissionRecord)
    (p : UserProgress) : Type 0 where
  pub each_once :
      (id : Bytes)
      → count_where (of_problem id) p.completed_problems
        ≡ count_one (ltb 0 (count_where (λ t. t.0 == id) (completion_times user rows)))
  pub times_of_rows :
      (test : Bytes × Bytes → Bool)
      → count_where test (completion_times user rows) ≡ count_where (timed_row user test) rows
  pub first_times : AllFirst (completion_times user rows) p.completed_problems
  pub latest_first : IsSortedBy completed_later p.completed_problems
  pub streak : HasStreak (solved day user rows) yesterday p.current_streak_days
  pub accepted_in : p.accepted_submissions ≤ p.total_submissions

count-completed_problems_of :
    (user : ℕ) (rows : List SubmissionRecord) (id : Bytes)
    → count_where (of_problem id) (completed_problems_of bytes_ltb user rows)
      ≡ count_one (ltb 0 (count_where (λ t. t.0 == id) (completion_times user rows)))
unfolding completed_problems_of
count-completed_problems_of user rows id =
    count-sort_by completed_later (of_problem id) (groups_of bytes_ltb (completion_times user rows))
    ∙ count-groups_of id (completion_times user rows)

completed_problems_of-IsSortedBy :
    (user : ℕ) (rows : List SubmissionRecord)
    → IsSortedBy completed_later (completed_problems_of bytes_ltb user rows)
unfolding completed_problems_of
completed_problems_of-IsSortedBy user rows =
    sort_by-IsSortedBy completed_later (λ a b. bytes_ltb_asym b.completed_at a.completed_at)
      (groups_of bytes_ltb (completion_times user rows))

completed_problems_of-AllFirst :
    (user : ℕ) (rows : List SubmissionRecord)
    → AllFirst (completion_times user rows) (completed_problems_of bytes_ltb user rows)
unfolding completed_problems_of
completed_problems_of-AllFirst user rows =
    sort_by-AllFirst (completion_times user rows) _
      (groups_of-AllFirst (completion_times user rows))

abbrev pub all_work : ProgressOutcomes
all_work = record { totals = works; most_recent = works; streak = works; completed = works }

-- Where the statements work, `progress` answers: each problem that has an accepted submission of the
-- user with a completion time is reported once and no other is, with the earliest of these times, and
-- none stands behind one of an earlier time; the streak is 0 where no day from yesterday on is a day
-- of such a time, and else the number of days in a row, each with one, up to the last such day; and
-- no more submissions are accepted than there are.
pub progress_lem :
    (day : Bytes → ℕ) (yesterday user : ℕ) (db : Database)
    → (p : UserProgress) × (progress day yesterday all_work user db ≡ ok p)
      × Reports day yesterday user db.submissions p
unfolding progress
progress_lem day yesterday user db = (
  _,
  refl,
  record {
    each_once = count-completed_problems_of user db.submissions;
    times_of_rows = λ test. count-completion_times user test db.submissions;
    first_times = completed_problems_of-AllFirst user db.submissions;
    latest_first = completed_problems_of-IsSortedBy user db.submissions;
    streak = streak_lem day yesterday user db.submissions;
    accepted_in = count_mono_and _ _ db.submissions;
  },
)
