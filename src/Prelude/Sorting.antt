-- ===== src/Prelude/Sorting.antt =====
-- Insertion sort, for ORDER BY: `before a b` says that `a` stands before `b`.
use Prim.Native.Nat.{ℕ, zero, suc, ◌+◌}
use mathlib.Core.Path.{◌≡◌, refl, subst}
use mathlib.Core.Logic.{inl, inr}
use mathlib.Core.Bool.{Bool, true, false}
use mathlib.Core.List.{List, [], ◌∷◌}
use native.Mathlib.Omega.{arith}
use trainer.Prelude.Tests.{if◌then◌else◌, count_one, Bool-cases}
use trainer.Prelude.Lists.{count_where, take}

module _ {ℓ} {A : Type ℓ} (before : A → A → Bool) where
  unfoldable pub insert_by : A → List A → List A
  insert_by a [] = a ∷ []
  insert_by a (x ∷ xs) = let rest = insert_by a xs in if before x a then x ∷ rest else a ∷ x ∷ xs

  unfoldable pub sort_by : List A → List A
  unfolding insert_by
  sort_by [] = []
  sort_by (a ∷ xs) = insert_by a (sort_by xs)

  -- No element stands behind one that it should stand before.
  abbrev pub IsSortedBy : List A → Type 0
  IsSortedBy [] = Unit {0}
  IsSortedBy (a ∷ []) = Unit {0}
  IsSortedBy (a ∷ x ∷ xs) = (before x a ≡ false) × IsSortedBy (x ∷ xs)

  module _ (asym : (a b : A) → before a b ≡ true → before b a ≡ false) where
    insert_by-IsSortedBy : (a : A) (xs : List A) → IsSortedBy xs → IsSortedBy (insert_by a xs)
    unfolding insert_by
    insert_by-IsSortedBy a [] h = tt
    insert_by-IsSortedBy a (x ∷ []) h = elim (Bool-cases (before x a)) [
      | inl t ↦ rw t (asym x a t, tt)
      | inr t ↦ rw t (t, tt)
    ]
    insert_by-IsSortedBy a (x ∷ y ∷ xs) h = elim (Bool-cases (before x a)) [
      | inl t ↦ elim (Bool-cases (before y a)) [
        | inl u ↦ rw (t, u) (h.0, behind u (insert_by-IsSortedBy a (y ∷ xs) h.1))
        | inr u ↦ rw (t, u) (asym x a t, (u, h.1))
      ]
      | inr t ↦ rw t (t, h)
    ]
      where
        behind :
            before y a ≡ true → IsSortedBy (insert_by a (y ∷ xs)) → IsSortedBy (y ∷ insert_by a xs)
        behind u inner =
            subst (λ b. IsSortedBy (if b then y ∷ insert_by a xs else a ∷ y ∷ xs)) u inner

    pub sort_by-IsSortedBy : (xs : List A) → IsSortedBy (sort_by xs)
    unfolding sort_by
    sort_by-IsSortedBy [] = tt
    sort_by-IsSortedBy (a ∷ xs) = insert_by-IsSortedBy a (sort_by xs) (sort_by-IsSortedBy xs)

  pub take-IsSortedBy : (n : ℕ) (xs : List A) → IsSortedBy xs → IsSortedBy (take n xs)
  take-IsSortedBy zero xs h = tt
  take-IsSortedBy (suc n) [] h = tt
  take-IsSortedBy (suc zero) (a ∷ []) h = tt
  take-IsSortedBy (suc (suc n)) (a ∷ []) h = tt
  take-IsSortedBy (suc zero) (a ∷ x ∷ xs) h = tt
  take-IsSortedBy (suc (suc n)) (a ∷ x ∷ xs) h = (h.0, take-IsSortedBy (suc n) (x ∷ xs) h.1)

  module _ (test : A → Bool) where
    count-insert_by :
        (a : A) (xs : List A)
        → count_where test (insert_by a xs) ≡ count_one (test a) + count_where test xs
    unfolding count_where insert_by
    count-insert_by a [] = refl
    count-insert_by a (x ∷ xs) = elim (Bool-cases (before x a)) [
      | inl t ↦ rw t (omega (arith, count-insert_by a xs))
      | inr t ↦ rw t refl
    ]

    -- Nothing is lost and nothing added.
    pub count-sort_by : (xs : List A) → count_where test (sort_by xs) ≡ count_where test xs
    unfolding count_where sort_by
    count-sort_by [] = refl
    count-sort_by (a ∷ xs) = omega (arith, count-insert_by a (sort_by xs), count-sort_by xs)
