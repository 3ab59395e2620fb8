-- ===== src/Tests/Administrators.antt =====
-- The administrator's handlers of backend/src/main.cpp on the catalogue of Catalogues: Ada edits a
-- problem that has been updated since she opened it.
use trainer.Prelude.{
  ℕ, ◌≡◌, ◌⊎◌, ◌≤◌, refl, true, false, none, some, Option, List, [], ◌∷◌, Bytes, codes, ok, err,
  Result, arith,
}
use trainer.Table.{Database}
use trainer.Auth.{AuthUser, AuthError}
use trainer.Sqlite.{works}
use trainer.Catalogue.{Catalogue}
use trainer.Catalogue.Calls.{run}
use trainer.Administration.{
  AdminJson, parse_admin_problem, parse_admin_test, admin_problem_to_json, problem_to_json,
}
use trainer.Administration.Forms.{Fits, parse_admin_problem-form}
use trainer.Administration.Limits.{AnyLimited, parse_admin_problem-EachLimited}
use trainer.Server.{error_response}
use trainer.Server.Problems.{handle, deletes_problem, admin_write_problem}
use trainer.Server.Changes.{
  Attempt, IsAdministrator, handle-IsAdministrator, admin_write_problem_lem,
}
use trainer.Server.Catalogues.{sqlite_repositories}
use trainer.Server.Conflicts.{second_form_lem}
use trainer.Tests.JsonTrees.{Tree, trees, admin_trees, trees-AdminLaws}
use trainer.Tests.Catalogues.{new_problem, filled, filled-Inv, first_update, between}

abbrev ada : AuthUser
ada = record { id = 1; username = codes "ada"; created_at = []; is_admin = true }

abbrev signed_in : Result AuthError AuthUser
signed_in = ok ada

abbrev no_submissions : Database
no_submissions = record { submissions = []; next_id = 1; audit_log = [] }

abbrev form : Tree
form = admin_problem_to_json admin_trees new_problem

fits : Fits new_problem
unfolding codes trainer.Administration.valid_problem_slug trainer.Prelude.all_of
fits = record {
  slug = refl;
  titled = refl;
  title_size = omega arith;
  description_size = omega arith;
  input_format_size = omega arith;
  output_format_size = omega arith;
  tags_size = omega arith;
  languages_size = omega arith;
  examples_size = omega arith;
  revised = omega arith;
  revision_size = omega arith;
}

form_is_read : parse_admin_problem admin_trees form (some (codes "echo")) ≡ some (ok new_problem)
form_is_read = parse_admin_problem-form admin_trees trees-AdminLaws new_problem fits

parse_admin_problem-form_example :
    parse_admin_problem admin_trees
      (admin_problem_to_json admin_trees new_problem)
      (some (codes "echo"))
    ≡ some (ok new_problem)
parse_admin_problem-form_example =
    parse_admin_problem-form admin_trees trees-AdminLaws new_problem fits

parse_admin_problem-EachLimited_example :
    AnyLimited (parse_admin_problem admin_trees form (some (codes "echo")))
parse_admin_problem-EachLimited_example =
    parse_admin_problem-EachLimited admin_trees form (some (codes "echo"))

handle-IsAdministrator_example :
    ((handle
        (sqlite_repositories admin_trees works works [])
        admin_trees
        signed_in
        signed_in
        (deletes_problem (codes "echo"))
        (filled, no_submissions)).1
      ≡ (filled, no_submissions))
    ⊎ IsAdministrator signed_in
handle-IsAdministrator_example =
    handle-IsAdministrator (sqlite_repositories admin_trees works works []) admin_trees signed_in
      signed_in (deletes_problem (codes "echo")) (filled, no_submissions)

admin_write_problem_lem_example :
    Attempt
      (sqlite_repositories admin_trees works works [])
      admin_trees
      signed_in
      signed_in
      (some form)
      (some (codes "echo"))
      (filled, no_submissions)
      (admin_write_problem
        (sqlite_repositories admin_trees works works [])
        admin_trees
        signed_in
        signed_in
        (some form)
        (some (codes "echo"))
        (filled, no_submissions))
admin_write_problem_lem_example =
    admin_write_problem_lem (sqlite_repositories admin_trees works works []) admin_trees signed_in
      signed_in (some form) (some (codes "echo")) (filled, no_submissions)

second_form_lem_example :
    (message : Bytes) × (admin_write_problem
        (sqlite_repositories admin_trees works works [])
        admin_trees
        signed_in
        signed_in
        (some form)
        (some (codes "echo"))
        (run trees between first_update, no_submissions)
      ≡ (some (error_response message 409), (run trees between first_update, no_submissions)))
unfolding trainer.Catalogue.Writing.update trainer.Prelude.count_where run
    trainer.Catalogue.Writing.create_test trainer.Catalogue.Writing.create
    trainer.Catalogue.Seeding.seed trainer.Prelude.bytes_beq codes
second_form_lem_example =
    second_form_lem admin_trees works works works [] [] new_problem
      (record new_problem { revision = 2 }) new_problem between filled first_update no_submissions
      form signed_in signed_in filled-Inv refl (refl, tt)
      (record { user = ada; signed_in = refl; admin = refl }) form_is_read refl refl
