-- ===== src/Server/Profiles.antt =====
-- The profile that `profile` (backend/src/main.cpp) builds on the SQLite submission repository
-- (backend/src/sqlite-submission-repository.cpp), by the submission service.
use trainer.Prelude.{
  ℕ, suc, ◌+◌, ◌≡◌, refl, sym, ◌∙◌, ap, List, [], ◌∷◌, Bytes, byte_eq, ◌==◌, ltb, count_where,
  count_one, length, ok,
}
use trainer.Auth.{AuthUser}
use trainer.Service.{answer}
use trainer.Table.{Database}
use trainer.Catalogue.Reading.{Found}
use trainer.Sqlite.Progress.{completion_times, progress, CompletedProblem}
use trainer.Sqlite.Streaks.{HasStreak, solved}
use trainer.Sqlite.Completed.{all_work, progress_lem}
use trainer.Server.Profile.{ProfileBody, profile_of, items_of, profile, profile_body, progressed}

module _ (find_for_judging : Bytes → Found) where
  count-items_of :
      (id : Bytes) (completed : List CompletedProblem)
      → count_where (λ x. x.id == id) (items_of find_for_judging completed)
        ≡ count_where (λ c. c.problem_id == id) completed
  unfolding count_where items_of
  count-items_of id [] = refl
  count-items_of id (c ∷ completed) =
      ap (λ n. count_one (c.problem_id == id) + n) (count-items_of id completed)

  length-items_of :
      (completed : List CompletedProblem)
      → length (items_of find_for_judging completed) ≡ length completed
  unfolding items_of
  length-items_of [] = refl
  length-items_of (c ∷ completed) = ap suc (length-items_of completed)

  -- What a profile shows of the user's submissions.
  pub record Shows (day : Bytes → ℕ) (yesterday : ℕ) (user : AuthUser) (db : Database)
      (body : ProfileBody) : Type 0 where
    pub whose : body.user ≡ user
    pub counted : body.completed_count ≡ length body.completed_problems
    pub each_once :
        (id : Bytes)
        → count_where (λ x. x.id == id) body.completed_problems
          ≡ count_one
              (ltb 0 (count_where (λ t. t.0 == id) (completion_times user.id db.submissions)))
    pub streak : HasStreak (solved day user.id db.submissions) yesterday body.current_streak_days

  -- Where the session belongs to a user and the statements work, the profile is that user's: each
  -- problem that the user solved is listed once and no other is, whatever the problem repository
  -- finds; the number of solved problems is that of the list; and the streak is 0 where no day from
  -- yesterday on is a day on which the user solved a problem, and else the number of days in a row,
  -- each with a problem solved, up to the last such day.
  pub profile-Shows :
      (day : Bytes → ℕ) (yesterday : ℕ) (user : AuthUser) (db : Database)
      → (body : ProfileBody) × (profile find_for_judging
            (ok user)
            (λ id. answer (progress day yesterday all_work id db))
          ≡ profile_of body)
        × Shows day yesterday user db body
  unfolding profile progressed profile_body answer
  profile-Shows day yesterday user db =
      let (p, e, reports) = progress_lem day yesterday user.id db in
      (
        profile_body find_for_judging user p,
        ap (λ r. progressed find_for_judging user (answer r)) e,
        record {
          whose = refl;
          counted = sym (length-items_of p.completed_problems);
          each_once = λ id. count-items_of id p.completed_problems ∙ reports.each_once id;
          streak = reports.streak;
        },
      )
