-- ===== src/Catalogue/Concurrency.antt =====
-- Two administrators who update one problem (`update`,
-- backend/src/sqlite-problem-repository.cpp).
use trainer.Prelude.{
  ◌≤◌, ◌≡◌, refl, sym, subst, false, ◌&&◌, List, Bytes, arith, nat_eq, byte_eq, count_where, inl,
  inr, Bool-cases, ok, err, Result,
}
use trainer.Problem.{Problem}
use trainer.Sqlite.{Outcome, works, invalid, fails}
use trainer.Table.{count-update_where, count-update_where_exchange, count_mono, count-none}
use trainer.Catalogue.{Catalogue, ProblemRepositoryError, has_id, has_revision, any_where}
use trainer.Catalogue.Columns.{JsonText, problem_row}
use trainer.Catalogue.Writing.{updated_row, update}
use trainer.Catalogue.Calls.{Call, updates, step, run}
use trainer.Catalogue.Invariant.{Inv}
use trainer.Catalogue.Preservation.{step-Inv}
use trainer.Catalogue.Revisions.{Past, stale, Spares, run-Past}

module _ {J : Type 0} (library : JsonText J) where
  AfterUpdate : Problem → Result ProblemRepositoryError Problem × Catalogue → Type 0
  AfterUpdate problem (err e, left) = Unit {0}
  AfterUpdate problem (ok answer, left) = Past problem.id problem.revision left

  -- An update that works passes the revision that it was based on.
  update-AfterUpdate :
      (o : Outcome) (now : Bytes) (problem : Problem) (db : Catalogue)
      → Inv db
      → AfterUpdate problem (update library o now problem db)
  unfolding update updated_row problem_row AfterUpdate
  update-AfterUpdate (invalid e) now problem db i = tt
  update-AfterUpdate (fails e) now problem db i = tt
  update-AfterUpdate works now problem db i =
      elim (Bool-cases (any_where (has_revision problem.id problem.revision) db.problems)) [
        | inr t ↦ rw t tt
        | inl t ↦ rw t (record {
          here = ground (
            arith,
            t,
            covered,
            count-update_where (has_revision problem.id problem.revision) (has_id problem.id)
                (updated_row library now problem) (λ r h. refl) db.problems,
          );
          beyond = ground (
            arith,
            t,
            covered,
            i.one_row problem.id,
            count-update_where_exchange (has_revision problem.id problem.revision)
                (stale problem.id problem.revision) (updated_row library now problem) db.problems,
            count-none
                (λ r.
                  has_revision problem.id problem.revision r
                  && stale problem.id problem.revision (updated_row library now problem r))
                (λ r. ground arith) db.problems,
            count_mono (has_revision problem.id problem.revision)
                (λ r.
                  has_revision problem.id problem.revision r && stale problem.id problem.revision r)
                (λ r h. ground arith) db.problems,
            count_mono (stale problem.id problem.revision) (has_id problem.id) (λ r h. ground arith)
                db.problems,
          );
        })
      ]
    where
      covered :
          count_where (has_revision problem.id problem.revision) db.problems
          ≤ count_where (has_id problem.id) db.problems
      covered =
          count_mono (has_revision problem.id problem.revision) (has_id problem.id)
            (λ r h. ground arith) db.problems

  -- A stale form is refused.
  Past-refused :
      (o : Outcome) (now : Bytes) (problem : Problem) (db : Catalogue)
      → Past problem.id problem.revision db
      → (e : ProblemRepositoryError) × (update library o now problem db ≡ (err e, db))
  unfolding update
  Past-refused (invalid e) now problem db p = (_, refl)
  Past-refused (fails e) now problem db p = (_, refl)
  Past-refused works now problem db p = rw (nothing) (_, refl)
    where
      nothing : any_where (has_revision problem.id problem.revision) db.problems ≡ false
      nothing = ground (
        arith,
        p.beyond,
        count_mono (has_revision problem.id problem.revision) (stale problem.id problem.revision)
            (λ r h. ground arith) db.problems,
      )

  -- No update is lost: where the tables satisfy the invariant and a problem has been updated, a
  -- second update from the same revision is refused and changes nothing, whatever calls come
  -- between, as long as none of them removes the problem.
  pub update-no_lost_update :
      (o o' : Outcome) (now now' : Bytes) (problem answer problem' : Problem) (cs : List Call)
      (db db' : Catalogue)
      → Inv db
      → update library o now problem db ≡ (ok answer, db')
      → Spares problem.id cs
      → problem'.id ≡ problem.id
      → problem'.revision ≡ problem.revision
      → (e : ProblemRepositoryError) × (update library o' now' problem' (run library cs db')
          ≡ (err e, run library cs db'))
  unfolding AfterUpdate step
  update-no_lost_update o o' now now' problem answer problem' cs db db' i h s same_id
        same_revision =
      Past-refused o' now' problem' (run library cs db') (
        subst (λ k. Past k problem'.revision (run library cs db')) (sym same_id)
          (subst (λ k. Past problem.id k (run library cs db')) (sym same_revision)
            (run-Past library problem.id problem.revision cs db' s
              (subst (λ x. Inv x.1) h (step-Inv library (updates o now problem) db i))
              (subst (AfterUpdate problem) h (update-AfterUpdate o now problem db i)))))
