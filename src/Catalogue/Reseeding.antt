-- ===== src/Catalogue/Reseeding.antt =====
-- Seeding tables that hold the default problems already (`seed`,
-- backend/src/sqlite-problem-repository.cpp).
use trainer.Prelude.{
  ℕ, suc, ◌≡◌, refl, ◌∙◌, ap, sym, subst, Bool, true, false, List, [], ◌∷◌, Bytes, nat_eq, byte_eq,
  inl, inr, Bool-cases, ok, err, Result,
}
use trainer.Problem.{Problem}
use trainer.Catalogue.{Catalogue, ProblemRepositoryError}
use trainer.Catalogue.Columns.{JsonText}
use trainer.Catalogue.Seeding.{SeedReplies, seed_problem, seed_problems, seed_end, seed}
use trainer.Catalogue.Invariant.{Inv}
use trainer.Catalogue.Seeded.{stored, Gives, AllStored, seed_lem}

module _ {J : Type 0} (library : JsonText J) (now : Bytes) where
  same_problem :
      (inserts : Bool) (tests : ℕ → Bool) (problem : Problem) (db : Catalogue)
      → stored problem.id db ≡ true
      → Gives (λ left. left ≡ db) (seed_problem library inserts tests now problem db)
  unfolding seed_problem
  same_problem false tests problem db h = tt
  same_problem true tests problem db h = rw h refl

  -- Where every default problem is stored, the loop inserts nothing.
  same_problems :
      (replies : SeedReplies) (index : ℕ) (problems : List Problem) (db : Catalogue)
      → AllStored problems db
      → Gives (λ left. left ≡ db) (seed_problems library replies now index problems db)
  unfolding seed_problems
  same_problems replies index [] db h = refl
  same_problems replies index (p ∷ ps) db h =
      go (seed_problem library (replies.problem index) (replies.test index) now p db)
        (same_problem (replies.problem index) (replies.test index) p db h.0)
        (same_problems replies (suc index) ps db h.1)
    where
      go :
          (r : Result ProblemRepositoryError Catalogue)
          → Gives (λ left. left ≡ db) r
          → Gives (λ left. left ≡ db) (seed_problems library replies now (suc index) ps db)
          → Gives
              (λ left. left ≡ db)
              (elim r [
                | err e ↦ err e
                | ok seeded ↦ seed_problems library replies now (suc index) ps seeded
              ])
      go (err e) same rest = tt
      go (ok next) same rest =
          subst
            (λ x. Gives (λ left. left ≡ db) (seed_problems library replies now (suc index) ps x))
            (sym same) rest

  same_end :
      (commits : Bool) (db : Catalogue) (r : Result ProblemRepositoryError Catalogue)
      → Gives (λ left. left ≡ db) r
      → (seed_end library commits db r).1 ≡ db
  unfolding seed_end
  same_end commits db (err e) same = refl
  same_end true db (ok left) same = same
  same_end false db (ok left) same = refl

  seed_same :
      (replies : SeedReplies) (default_problems : List Problem) (db : Catalogue)
      → AllStored default_problems db
      → (seed library replies now default_problems db).1 ≡ db
  unfolding seed
  seed_same replies default_problems db h = elim (Bool-cases replies.begins) [
    | inr b ↦ rw b refl
    | inl b ↦ elim (Bool-cases replies.prepares) [
      | inr p ↦ rw (b, p) refl
      | inl p ↦
          rw (b, p) (same_end replies.commits db _ (same_problems replies 0 default_problems db h))
    ]
  ]

  refused :
      (e : ProblemRepositoryError) (a b : Catalogue)
      → ◌≡◌ {A = Result ProblemRepositoryError (Unit {0}) × Catalogue} (err e, a) (ok tt, b)
      → ⊥
  refused e a b h = cc

  -- After a seeding that succeeded on tables that satisfy the invariant, another one, whatever its
  -- statements' outcomes, changes nothing.
  pub seed_twice :
      (earlier : Bytes) (first second : SeedReplies) (default_problems : List Problem)
      (db db' : Catalogue)
      → Inv db
      → seed library first earlier default_problems db ≡ (ok tt, db')
      → (seed library second now default_problems db').1 ≡ db'
  seed_twice earlier first second default_problems db db' i h =
      elim (seed_lem library earlier first default_problems db i) [
        | inl (e, q) ↦ absurd (refused e db db' (sym q ∙ h))
        | inr (left, q, s) ↦
            seed_same second default_problems db'
              (subst (AllStored default_problems) (ap (λ x. x.1) (sym q ∙ h)) s.all)
      ]
