-- ===== src/Server/Catalogues.antt =====
-- The administrator's handlers of backend/src/main.cpp on the tables of
-- backend/src/sqlite-problem-repository.cpp and backend/src/sqlite-submission-repository.cpp.
use trainer.Prelude.{
  ℕ, ◌≡◌, refl, sym, subst, Bool, true, false, Option, none, some, List, [], ◌∷◌, Bytes, Result, ok,
  err, Option-cases, inl, inr, byte_eq,
}
use trainer.Problem.{Problem, ProblemTestCase}
use trainer.Table.{Database}
use trainer.Auth.{AuthUser, AuthError}
use trainer.Sqlite.{Outcome}
use trainer.Sqlite.Retry.{audit}
use trainer.Catalogue.{Catalogue, ProblemRepositoryError}
use trainer.Catalogue.Writing.{create, update, remove, create_test, update_test, remove_test}
use trainer.Catalogue.Invariant.{Inv}
use trainer.Catalogue.Calls.{
  Call, creates, updates, removes, creates_test, updates_test, removes_test, step, run,
}
use trainer.Catalogue.Preservation.{catalogue_run-Inv}
use trainer.Administration.{AdminJson, parse_admin_problem, parse_admin_test}
use trainer.Server.{Response}
use trainer.Server.Lookups.{require_admin, positive_id}
use trainer.Server.Problems.{
  Repositories, ChangeRequest, writes_problem, deletes_problem, writes_test, deletes_test, handle,
  audited, problem_written, write_parsed, write_valid, write_valid_test, removed, test_written,
  write_test, admin_write_problem, admin_delete_problem, admin_write_test, write_test_body,
  admin_delete_test,
}

abbrev pub Tables : Type 0
Tables = Catalogue × Database

-- A call on the first database, which leaves the second as it is.
abbrev on_catalogue : {A : Type 0} → (Catalogue → A × Catalogue) → Tables → A × Tables
on_catalogue f (catalogue, db) = ((f catalogue).0, ((f catalogue).1, db))

-- The two repositories, with the outcome of the statement of the one and of the other.
unfoldable pub sqlite_repositories :
    {J : Type 0} → AdminJson J → Outcome → Outcome → Bytes → Repositories Tables
sqlite_repositories library o auditing now = record {
  create = λ problem. on_catalogue (create library.texts o now problem);
  update = λ problem. on_catalogue (update library.texts o now problem);
  remove = λ id. on_catalogue (remove o id);
  create_test = λ problem_id test. on_catalogue (create_test o problem_id test);
  update_test = λ problem_id test. on_catalogue (update_test o problem_id test);
  remove_test = λ problem_id id. on_catalogue (remove_test o problem_id id);
  audit = λ entry (catalogue, db).
      ((audit auditing entry db).0, (catalogue, (audit auditing entry db).1));
}

module _ {J : Type 0} (library : AdminJson J) (o auditing : Outcome) (now : Bytes) where
  abbrev repositories : Repositories Tables
  repositories = sqlite_repositories library o auditing now

  audited-catalogue :
      (again : Result AuthError AuthUser) (action entity_type entity_id : Bytes) (answer : Response)
      (s : Tables)
      → (audited repositories again action entity_type entity_id answer s).1.0 ≡ s.0
  unfolding audited sqlite_repositories
  audited-catalogue (err e) action entity_type entity_id answer s = refl
  audited-catalogue (ok admin) action entity_type entity_id answer s = refl

  problem_written-catalogue :
      (again : Result AuthError AuthUser) (updates_it : Bool)
      (answer : Result ProblemRepositoryError Problem × Tables)
      → (problem_written repositories again updates_it answer).1.0 ≡ answer.1.0
  unfolding problem_written
  problem_written-catalogue again updates_it (err e, s) = refl
  problem_written-catalogue again updates_it (ok problem, s) = audited-catalogue again _ _ _ _ s

  test_written-catalogue :
      (again : Result AuthError AuthUser) (problem_id : Bytes) (updates_it : Bool)
      (answer : Result ProblemRepositoryError ProblemTestCase × Tables)
      → (test_written repositories again problem_id updates_it answer).1.0 ≡ answer.1.0
  unfolding test_written
  test_written-catalogue again problem_id updates_it (err e, s) = refl
  test_written-catalogue again problem_id updates_it (ok test, s) =
      audited-catalogue again _ _ _ _ s

  removed-catalogue :
      (again : Result AuthError AuthUser) (failure missing action entity_type entity_id : Bytes)
      (answer : Result ProblemRepositoryError Bool × Tables)
      → (removed repositories again failure missing action entity_type entity_id answer).1.0
        ≡ answer.1.0
  unfolding removed
  removed-catalogue again failure missing action entity_type entity_id (err e, s) = refl
  removed-catalogue again failure missing action entity_type entity_id (ok false, s) = refl
  removed-catalogue again failure missing action entity_type entity_id (ok true, s) =
      audited-catalogue again _ _ _ _ s

  -- What a request does to the catalogue, calls of the problem repository do.
  abbrev MadeByCalls : Tables → Option Response × Tables → Type 0
  MadeByCalls s answer = (cs : List Call) × (answer.1.0 ≡ run library.texts cs s.0)

  module _ (authenticated again : Result AuthError AuthUser) where
    write_parsed-MadeByCalls :
        (id : Option Bytes) (problem : Problem) (s : Tables)
        → MadeByCalls s (write_parsed repositories again id problem s)
    unfolding write_parsed run step sqlite_repositories
    write_parsed-MadeByCalls none problem s =
        (creates o now problem ∷ [], problem_written-catalogue again false _)
    write_parsed-MadeByCalls (some id) problem s =
        (updates o now problem ∷ [], problem_written-catalogue again true _)

    write_valid-MadeByCalls :
        (id : Option Bytes) (parsed : Result Bytes Problem) (s : Tables)
        → MadeByCalls s (write_valid repositories again id parsed s)
    unfolding write_valid run
    write_valid-MadeByCalls id (err message) s = ([], refl)
    write_valid-MadeByCalls id (ok problem) s = write_parsed-MadeByCalls id problem s

    write_problem-MadeByCalls :
        (body : Option J) (id : Option Bytes) (s : Tables)
        → MadeByCalls s (admin_write_problem repositories library authenticated again body id s)
    unfolding admin_write_problem run
    write_problem-MadeByCalls body id s = elim (Option-cases (require_admin authenticated)) [
      | inr (refusal, e) ↦ rw (admin_write_problem, e) ([], refl)
      | inl e ↦ elim (Option-cases body) [
        | inl b ↦ rw (admin_write_problem, e, b) ([], refl)
        | inr (json, b) ↦ elim (Option-cases (parse_admin_problem library json id)) [
          | inl p ↦ rw (admin_write_problem, e, b, p) ([], refl)
          | inr (parsed, p) ↦
              rw (admin_write_problem, e, b, p) (write_valid-MadeByCalls id parsed s)
        ]
      ]
    ]

    write_test-MadeByCalls :
        (problem_id : Bytes) (updates_it : Bool) (test : ProblemTestCase) (s : Tables)
        → MadeByCalls s (write_test repositories again problem_id updates_it test s)
    unfolding write_test run step sqlite_repositories
    write_test-MadeByCalls problem_id true test s =
        (updates_test o problem_id test ∷ [], test_written-catalogue again problem_id true _)
    write_test-MadeByCalls problem_id false test s =
        (creates_test o problem_id test ∷ [], test_written-catalogue again problem_id false _)

    write_valid_test-MadeByCalls :
        (problem_id : Bytes) (updates_it : Bool) (parsed : Result Bytes ProblemTestCase)
        (s : Tables)
        → MadeByCalls s (write_valid_test repositories again problem_id updates_it parsed s)
    unfolding write_valid_test run
    write_valid_test-MadeByCalls problem_id updates_it (err message) s = ([], refl)
    write_valid_test-MadeByCalls problem_id updates_it (ok test) s =
        write_test-MadeByCalls problem_id updates_it test s

    write_test_body-MadeByCalls :
        (body : Option J) (problem_id : Bytes) (id : ℕ) (updates_it : Bool) (s : Tables)
        → MadeByCalls s (write_test_body repositories library again body problem_id id updates_it s)
    unfolding write_test_body run
    write_test_body-MadeByCalls none problem_id id updates_it s = ([], refl)
    write_test_body-MadeByCalls (some json) problem_id id updates_it s =
        elim (Option-cases (parse_admin_test library json id)) [
          | inl p ↦ rw (write_test_body, p) ([], refl)
          | inr (parsed, p) ↦
              rw (write_test_body, p) (write_valid_test-MadeByCalls problem_id updates_it parsed s)
        ]

    admin_write_test-MadeByCalls :
        (body : Option J) (problem_id : Bytes) (raw : Option Bytes) (s : Tables)
        → MadeByCalls s
            (admin_write_test repositories library authenticated again body problem_id raw s)
    unfolding admin_write_test run
    admin_write_test-MadeByCalls body problem_id raw s =
        elim (Option-cases (require_admin authenticated)) [
          | inr (refusal, e) ↦ rw (admin_write_test, e) ([], refl)
          | inl e ↦ elim (Option-cases raw) [
            | inl r ↦
                rw (admin_write_test, e, r) (write_test_body-MadeByCalls body problem_id 0 false s)
            | inr (text, r) ↦ elim (Option-cases (positive_id text)) [
              | inl p ↦ rw (admin_write_test, e, r, p) ([], refl)
              | inr (id, p) ↦
                  rw (admin_write_test, e, r, p)
                    (write_test_body-MadeByCalls body problem_id id true s)
            ]
          ]
        ]

    delete_problem-MadeByCalls :
        (id : Bytes) (s : Tables)
        → MadeByCalls s (admin_delete_problem repositories authenticated again id s)
    unfolding admin_delete_problem run step sqlite_repositories
    delete_problem-MadeByCalls id s = elim (Option-cases (require_admin authenticated)) [
      | inr (refusal, e) ↦ rw (admin_delete_problem, e) ([], refl)
      | inl e ↦
          rw (admin_delete_problem, e) (removes o id ∷ [], removed-catalogue again _ _ _ _ _ _)
    ]

    delete_test-MadeByCalls :
        (problem_id raw : Bytes) (s : Tables)
        → MadeByCalls s (admin_delete_test repositories authenticated again problem_id raw s)
    unfolding admin_delete_test run step sqlite_repositories
    delete_test-MadeByCalls problem_id raw s = elim (Option-cases (require_admin authenticated)) [
      | inr (refusal, e) ↦ rw (admin_delete_test, e) ([], refl)
      | inl e ↦ elim (Option-cases (positive_id raw)) [
        | inl p ↦ rw (admin_delete_test, e, p) ([], refl)
        | inr (id, p) ↦
            rw (admin_delete_test, e, p)
              (removes_test o problem_id id ∷ [], removed-catalogue again _ _ _ _ _ _)
      ]
    ]

    -- A request of the administrator's pages keeps the invariant of the catalogue, whoever sends it
    -- and whatever the statements' outcomes.
    pub handle-Inv :
        (request : ChangeRequest J) (s : Tables)
        → Inv s.0
        → Inv (handle repositories library authenticated again request s).1.0
    unfolding handle
    handle-Inv request s i =
        let (cs, e) = made request in subst Inv (sym e) (catalogue_run-Inv library.texts cs s.0 i)
      where
        made :
            (request : ChangeRequest J)
            → MadeByCalls s (handle repositories library authenticated again request s)
        made (writes_problem body id) = write_problem-MadeByCalls body id s
        made (deletes_problem id) = delete_problem-MadeByCalls id s
        made (writes_test body problem_id raw) = admin_write_test-MadeByCalls body problem_id raw s
        made (deletes_test problem_id raw) = delete_test-MadeByCalls problem_id raw s
