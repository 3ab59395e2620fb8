-- ===== src/Server/Conflicts.antt =====
-- Two administrators who edit one problem, from the form to the tables (`admin_write_problem` of
-- backend/src/main.cpp on backend/src/sqlite-problem-repository.cpp).
use trainer.Prelude.{
  ◌≡◌, refl, subst, none, some, List, Bytes, codes, bytes_beq, Result, ok, err, Bool-cases, inl,
  inr,
}
use trainer.Problem.{Problem}
use trainer.Table.{Database}
use trainer.Auth.{AuthUser, AuthError}
use trainer.Sqlite.{Outcome, works, invalid, fails}
use trainer.Catalogue.{Catalogue, ProblemRepositoryError, any_where, has_revision}
use trainer.Catalogue.Writing.{update}
use trainer.Catalogue.Invariant.{Inv}
use trainer.Catalogue.Calls.{Call, run}
use trainer.Catalogue.Revisions.{Spares}
use trainer.Catalogue.Concurrency.{update-no_lost_update}
use trainer.Administration.{AdminJson, parse_admin_problem}
use trainer.Server.{error_response}
use trainer.Server.Lookups.{require_admin}
use trainer.Server.Problems.{
  write_status, write_parsed, write_valid, problem_written, admin_write_problem,
}
use trainer.Server.Changes.{IsAdministrator}
use trainer.Server.Catalogues.{sqlite_repositories}

module _ {J : Type 0} (library : AdminJson J) where
  -- No error of `update` says that the problem was not found.
  update-write_status :
      (o : Outcome) (now : Bytes) (problem : Problem) (db left : Catalogue)
      (e : ProblemRepositoryError)
      → update library.texts o now problem db ≡ (err e, left)
      → write_status e.message ≡ 409
  unfolding update codes bytes_beq
  update-write_status o now problem db left e h = subst (λ x. HasConflict x) h (conflicts o)
    where
      HasConflict : Result ProblemRepositoryError Problem × Catalogue → Type 0
      HasConflict (ok p, x) = Unit {0}
      HasConflict (err x, y) = write_status x.message ≡ 409

      conflicts : (o : Outcome) → HasConflict (update library.texts o now problem db)
      conflicts (invalid m) = refl
      conflicts (fails m) = refl
      conflicts works =
          elim (Bool-cases (any_where (has_revision problem.id problem.revision) db.problems)) [
            | inl t ↦ rw t tt
            | inr t ↦ rw t refl
          ]

  admitted :
      (authenticated : Result AuthError AuthUser)
      → IsAdministrator authenticated
      → require_admin authenticated ≡ none
  unfolding require_admin
  admitted authenticated a = rw (a.signed_in, require_admin, a.admin) refl

  -- Where the tables satisfy the invariant and a problem has been updated, an administrator who sends
  -- a form for it that is based on the same revision is answered with status 409, and nothing
  -- changes, whatever calls of the problem repository come between, as long as none of them removes
  -- the problem.
  pub second_form_lem :
      (o o' auditing : Outcome) (now now' : Bytes) (first answer second : Problem) (cs : List Call)
      (catalogue catalogue' : Catalogue) (db : Database) (json : J)
      (authenticated again : Result AuthError AuthUser)
      → Inv catalogue
      → update library.texts o now first catalogue ≡ (ok answer, catalogue')
      → Spares first.id cs
      → IsAdministrator authenticated
      → parse_admin_problem library json (some first.id) ≡ some (ok second)
      → second.id ≡ first.id
      → second.revision ≡ first.revision
      → (message : Bytes) × (admin_write_problem
            (sqlite_repositories library o' auditing now')
            library
            authenticated
            again
            (some json)
            (some first.id)
            (run library.texts cs catalogue', db)
          ≡ (some (error_response message 409), (run library.texts cs catalogue', db)))
  unfolding admin_write_problem write_valid write_parsed problem_written sqlite_repositories
  second_form_lem o o' auditing now now' first answer second cs catalogue catalogue' db json
        authenticated again i h spares admin parsed same_id same_revision =
      let (refusal, q) =
        update-no_lost_update library.texts o o' now now' first answer second cs catalogue
          catalogue' i h spares same_id same_revision in
      (
        refusal.message,
        rw
            (
              admin_write_problem,
              admitted authenticated admin,
              parsed,
              write_valid,
              write_parsed,
              q,
              problem_written,
              update-write_status o' now' second (run library.texts cs catalogue') _ refusal q,
            )
            refl,
      )
