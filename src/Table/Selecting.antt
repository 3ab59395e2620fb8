-- ===== src/Table/Selecting.antt =====
-- What selections, updates and insertions of rows do to counts.
use trainer.Prelude.{
  ◌+◌, ◌≤◌, ◌≡◌, refl, Bool, true, false, ◌&&◌, List, [], ◌∷◌, ◌++◌, arith, count_where, count_one,
  inl, inr, Bool-cases,
}
use trainer.Table.Rows.{select_where, update_where}

module _ {ℓ} {A : Type ℓ} where
  pub count-select_where :
      (p q : A → Bool) (rows : List A)
      → count_where q (select_where p rows) ≡ count_where (λ r. p r && q r) rows
  unfolding count_where select_where
  count-select_where p q [] = refl
  count-select_where p q (r ∷ rows) = elim (Bool-cases (p r)) [
    | inl t ↦ rw t (omega (arith, count-select_where p q rows))
    | inr t ↦ rw t (omega (arith, count-select_where p q rows))
  ]

  pub count-append :
      (q : A → Bool) (xs ys : List A)
      → count_where q (xs ++ ys) ≡ count_where q xs + count_where q ys
  unfolding count_where
  count-append q [] ys = omega arith
  count-append q (x ∷ xs) ys = omega (arith, count-append q xs ys)

  pub count_mono :
      (p q : A → Bool) (implied : (r : A) → p r ≡ true → q r ≡ true) (rows : List A)
      → count_where p rows ≤ count_where q rows
  unfolding count_where
  count_mono p q implied [] = omega arith
  count_mono p q implied (r ∷ rows) = ground (arith, implied r, count_mono p q implied rows)

  pub count-same :
      (p q : A → Bool) (same : (r : A) → p r ≡ q r) (rows : List A)
      → count_where p rows ≡ count_where q rows
  unfolding count_where
  count-same p q same [] = refl
  count-same p q same (r ∷ rows) = rw (same r, count-same p q same rows) refl

  pub count-none :
      (p : A → Bool) (never : (r : A) → p r ≡ false) (rows : List A) → count_where p rows ≡ 0
  unfolding count_where
  count-none p never [] = refl
  count-none p never (r ∷ rows) = rw (never r, count-none p never rows) refl

  module _ (p q : A → Bool) (f : A → A) where
    -- An update exchanges the rows that it meets.
    pub count-update_where_exchange :
        (rows : List A)
        → count_where q (update_where p f rows) + count_where (λ r. p r && q r) rows
          ≡ count_where q rows + count_where (λ r. p r && q (f r)) rows
    unfolding count_where update_where
    count-update_where_exchange [] = refl
    count-update_where_exchange (r ∷ rows) = elim (Bool-cases (p r)) [
      | inl t ↦ rw t (omega (arith, count-update_where_exchange rows))
      | inr t ↦ rw t (omega (arith, count-update_where_exchange rows))
    ]

    pub count-update_where :
        (keeps : (r : A) → p r ≡ true → q (f r) ≡ q r) (rows : List A)
        → count_where q (update_where p f rows) ≡ count_where q rows
    unfolding count_where update_where
    count-update_where keeps [] = refl
    count-update_where keeps (r ∷ rows) = ground (arith, keeps r, count-update_where keeps rows)

    -- Where no updated row passes the test any more.
    pub count-update_where-le :
        (falls : (r : A) → p r ≡ true → q (f r) ≡ false) (rows : List A)
        → count_where q (update_where p f rows) ≤ count_where q rows
    unfolding count_where update_where
    count-update_where-le falls [] = omega arith
    count-update_where-le falls (r ∷ rows) =
        ground (arith, falls r, count-update_where-le falls rows)

  -- Tests that cover each other row by row.
  pub count-cover :
      (a b c d e : A → Bool)
      (covered : (r : A)
        → count_one (a r) + count_one (b r) ≤ count_one (c r) + (count_one (d r) + count_one (e r)))
      (rows : List A)
      → count_where a rows + count_where b rows
        ≤ count_where c rows + (count_where d rows + count_where e rows)
  unfolding count_where
  count-cover a b c d e covered [] = omega arith
  count-cover a b c d e covered (r ∷ rows) =
      omega (arith, covered r, count-cover a b c d e covered rows)
