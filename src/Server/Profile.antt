-- ===== src/Server/Profile.antt =====
-- The handler of the profile (`profile` of backend/src/main.cpp). The session lookup and the answers
-- of the services are arguments.
use trainer.Prelude.{
  ℕ, Option, none, some, List, [], ◌∷◌, Bytes, codes, length, Result, ok, err, if◌then◌else◌,
}
use trainer.Auth.{AuthUser, AuthError, is_internal}
use trainer.Service.{SubmissionServiceError}
use trainer.Catalogue.Reading.{Found}
use trainer.Sqlite.Progress.{UserProgress, CompletedProblem}

-- An element of `completedProblems`.
pub record CompletedItem : Type 0 where
  pub id : Bytes
  pub title : Bytes
  pub completed_at : Bytes

-- The body with its members; `activity` is spread out.
pub record ProfileBody : Type 0 where
  pub user : AuthUser
  pub total_submissions : ℕ
  pub accepted_submissions : ℕ
  pub current_streak_days : ℕ
  pub completed_count : ℕ
  pub most_recent_submission_problem_id : Option Bytes
  pub completed_problems : List CompletedItem

pub data ProfileResponse : Type 0 where
  refused_with : ℕ → Bytes → ProfileResponse
  profile_of : ProfileBody → ProfileResponse

-- The problem's title, or its id where the problem is not found.
unfoldable pub title_of : Bytes → Found → Bytes
title_of id (err e) = id
title_of id (ok none) = id
title_of id (ok (some problem)) = problem.title

module _ (find_for_judging : Bytes → Found) where
  unfoldable pub items_of : List CompletedProblem → List CompletedItem
  unfolding title_of
  items_of [] = []
  items_of (c ∷ completed) =
      record {
        id = c.problem_id;
        title = title_of c.problem_id (find_for_judging c.problem_id);
        completed_at = c.completed_at;
      }
      ∷ items_of completed

  unfoldable pub profile_body : AuthUser → UserProgress → ProfileBody
  unfolding items_of
  profile_body user progress = record {
    user = user;
    total_submissions = progress.total_submissions;
    accepted_submissions = progress.accepted_submissions;
    current_streak_days = progress.current_streak_days;
    completed_count = length progress.completed_problems;
    most_recent_submission_problem_id = progress.most_recent_submission_problem_id;
    completed_problems = items_of progress.completed_problems;
  }

  unfoldable pub progressed :
      AuthUser → Result SubmissionServiceError UserProgress → ProfileResponse
  unfolding profile_body
  progressed user (err e) = refused_with 500 (codes "Profile could not be retrieved")
  progressed user (ok progress) = profile_of (profile_body user progress)

  unfoldable pub profile :
      Result AuthError AuthUser → (ℕ → Result SubmissionServiceError UserProgress) → ProfileResponse
  unfolding progressed
  profile (err error) progress =
      if is_internal error.code
      then refused_with 500 (codes "Authentication service is unavailable")
      else refused_with 401 (codes "Authentication required")
  profile (ok user) progress = progressed user (progress user.id)
