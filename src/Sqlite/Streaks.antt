-- ===== src/Sqlite/Streaks.antt =====
-- The streak of days that `progress` reports (backend/src/sqlite-submission-repository.cpp).
use trainer.Prelude.{
  ℕ, zero, suc, ◌+◌, ◌-◌, ◌≤◌, ◌<◌, ◌≡◌, refl, ◌∙◌, ap, subst, Bool, true, false, ◌||◌, List, [],
  ◌∷◌, Bytes, arith, nat_eq, ◌==◌, nat_beq, ltb, count_where, count_one, map, sort_by, IsSortedBy,
  sort_by-IsSortedBy, count-sort_by, inl, inr, Bool-cases,
}
use trainer.Submission.{SubmissionRecord}
use trainer.Sqlite.Progress.{completion_times, distinct, solved_days, in_place, streak_of}

abbrev contains : ℕ → List ℕ → Bool
contains k [] = false
contains k (d ∷ days) = d == k || contains k days

-- Days that fall along the list and lie before a day.
abbrev FallsBelow : ℕ → List ℕ → Type 0
FallsBelow b [] = Unit {0}
FallsBelow b (d ∷ days) = (d < b) × FallsBelow d days

abbrev later : ℕ → ℕ → Bool
later d e = ltb e d

distinct-FallsBelow :
    (b d : ℕ) (days : List ℕ)
    → IsSortedBy later (d ∷ days)
    → d < b
    → FallsBelow b (distinct (d ∷ days))
unfolding distinct
distinct-FallsBelow b d [] h lt = (lt, tt)
distinct-FallsBelow b d (e ∷ days) h lt = elim (Bool-cases (nat_beq d e)) [
  | inl t ↦ rw t (distinct-FallsBelow b e days h.1 (ground (arith, t)))
  | inr t ↦ rw t (lt, distinct-FallsBelow d e days h.1 (ground (arith, t, h.0)))
]

contains-distinct : (k : ℕ) (days : List ℕ) → contains k (distinct days) ≡ contains k days
unfolding distinct
contains-distinct k [] = refl
contains-distinct k (d ∷ []) = refl
contains-distinct k (d ∷ e ∷ days) = ground (arith, contains-distinct k (e ∷ days))

contains-count : (k : ℕ) (days : List ℕ) → contains k days ≡ ltb 0 (count_where (λ d. d == k) days)
unfolding count_where
contains-count k [] = refl
contains-count k (d ∷ days) = ground (arith, contains-count k days)

contains-above : (b k : ℕ) (days : List ℕ) → FallsBelow b days → b ≤ k → contains k days ≡ false
contains-above b k [] f h = refl
contains-above b k (d ∷ days) f h = ground (arith, f.0, h, contains-above d k days f.1)

-- Days that come too early for their position.
in_place-late :
    (last position b : ℕ) (days : List ℕ)
    → FallsBelow b days
    → b + position ≤ last
    → in_place last position days ≡ 0
unfolding in_place
in_place-late last position b [] f h = refl
in_place-late last position b (d ∷ days) f h =
    ground (arith, f.0, h, in_place-late last (suc position) d days f.1)

-- The n days before `top` are days of the test, and the one before them is none.
pub record Run (test : ℕ → Bool) (top n : ℕ) : Type 0 where
  pub within : n ≤ top
  pub each : (j k : ℕ) → j < n → k + suc j ≡ top → test k ≡ true
  pub ends : (k : ℕ) → k + suc n ≡ top → test k ≡ false

in_place-Run :
    (last position top : ℕ) (days : List ℕ)
    → top + position ≡ suc last
    → FallsBelow top days
    → Run (λ k. contains k days) top (in_place last position days)
unfolding in_place
in_place-Run last position top [] h f = record {
  within = omega arith;
  each = λ j k lt e. ground (arith, lt);
  ends = λ k e. refl;
}
in_place-Run last position top (d ∷ days) h f = elim (Bool-cases (nat_beq (last - d) position)) [
  | inl t ↦ rw t (
      onwards (ground (arith, t, h, f.0))
        (in_place-Run last (suc position) d days (ground (arith, t, h, f.0)) f.1))
  | inr t ↦ rw t (over t (in_place-late last (suc position) d days f.1 (ground (arith, t, h, f.0))))
]
  where
    each_day :
        suc d ≡ top
        → Run (λ k. contains k days) d (in_place last (suc position) days)
        → (j k : ℕ) → j < 1 + in_place last (suc position) days
        → k + suc j ≡ top
        → contains k (d ∷ days) ≡ true
    each_day e r zero k lt q = ground (arith, q, e)
    each_day e r (suc j) k lt q =
        ground (arith, r.each j k (omega (arith, lt)) (omega (arith, q, e)))

    onwards :
        suc d ≡ top
        → Run (λ k. contains k days) d (in_place last (suc position) days)
        → Run (λ k. contains k (d ∷ days)) top (1 + in_place last (suc position) days)
    onwards e r = record {
      within = omega (arith, e, r.within);
      each = each_day e r;
      ends = λ k q. ground (arith, q, e, r.ends k);
    }

    over :
        nat_beq (last - d) position ≡ false
        → in_place last (suc position) days ≡ 0
        → Run (λ k. contains k (d ∷ days)) top (0 + in_place last (suc position) days)
    over t z = record {
      within = omega (arith, z);
      each = λ j k lt q. ground (arith, z, lt);
      ends = λ k q. ground (arith, z, q, t, h, f.0, contains-above d k days f.1);
    }

-- The test that a day is one of a user's solved days.
abbrev pub solved : (Bytes → ℕ) → ℕ → List SubmissionRecord → ℕ → Bool
solved day user rows k = ltb 0 (count_where (λ c. day c.1 == k) (completion_times user rows))

count-map {ℓ} :
    {A : Type ℓ} (f : A → ℕ) (k : ℕ) (xs : List A)
    → count_where (λ d. d == k) (map f xs) ≡ count_where (λ x. f x == k) xs
unfolding count_where
count-map f k [] = refl
count-map f k (x ∷ xs) = ap (λ n. count_one (f x == k) + n) (count-map f k xs)

later-asym : (d e : ℕ) → later d e ≡ true → later e d ≡ false
later-asym d e h = ground (arith, h)

contains-solved :
    (day : Bytes → ℕ) (user : ℕ) (rows : List SubmissionRecord) (k : ℕ)
    → contains k (solved_days day user rows) ≡ solved day user rows k
unfolding solved_days
contains-solved day user rows k =
    contains-distinct k (sort_by later days)
    ∙ contains-count k (sort_by later days)
    ∙ ap (ltb 0) (count-sort_by later (λ d. d == k) days ∙ count-map (λ c. day c.1) k times)
  where
    times : List (Bytes × Bytes)
    times = completion_times user rows

    days : List ℕ
    days = map (λ c. day c.1) times

-- A streak that is broken, or one that ends with the last day of the test.
pub data HasStreak (test : ℕ → Bool) (yesterday n : ℕ) : Type 0 where
  broken : ((k : ℕ) → yesterday ≤ k → test k ≡ false) → n ≡ 0 → HasStreak test yesterday n
  kept :
      (last : ℕ)
      → yesterday ≤ last
      → test last ≡ true
      → ((k : ℕ) → last < k → test k ≡ false)
      → Run test (suc last) n
      → HasStreak test yesterday n

streak_of-HasStreak :
    (yesterday b : ℕ) (days : List ℕ)
    → FallsBelow b days
    → HasStreak (λ k. contains k days) yesterday (streak_of yesterday days)
unfolding streak_of
streak_of-HasStreak yesterday b [] f = broken (λ k h. refl) refl
streak_of-HasStreak yesterday b (d ∷ days) f = elim (Bool-cases (ltb d yesterday)) [
  | inl t ↦ rw t (broken (λ k h. ground (arith, t, h, contains-above d k days f.1)) refl)
  | inr t ↦ rw t (
      kept d (ground (arith, t)) (ground arith)
        (λ k h. ground (arith, h, contains-above d k days f.1))
        (in_place-Run d 0 (suc d) (d ∷ days) (omega arith) (omega arith, f.1)))
]

distinct-bound : (days : List ℕ) → IsSortedBy later days → (b : ℕ) × FallsBelow b (distinct days)
unfolding distinct
distinct-bound [] h = (0, tt)
distinct-bound (d ∷ days) h = (suc d, distinct-FallsBelow (suc d) d days h (omega arith))

solved_days-FallsBelow :
    (day : Bytes → ℕ) (user : ℕ) (rows : List SubmissionRecord)
    → (b : ℕ) × FallsBelow b (solved_days day user rows)
unfolding solved_days
solved_days-FallsBelow day user rows =
    distinct-bound (sort_by later days) (sort_by-IsSortedBy later later-asym days)
  where
    days : List ℕ
    days = map (λ c. day c.1) (completion_times user rows)

-- The streak of `progress` is 0 where no day from yesterday on is a day on which the user solved
-- a problem; else it is the number of days in a row, each with a problem solved, up to the last
-- such day, and the day before them is none.
pub streak_lem :
    (day : Bytes → ℕ) (yesterday user : ℕ) (rows : List SubmissionRecord)
    → HasStreak (solved day user rows) yesterday (streak_of yesterday (solved_days day user rows))
streak_lem day yesterday user rows =
    subst (λ test. HasStreak test yesterday (streak_of yesterday (solved_days day user rows)))
      (λ i k. contains-solved day user rows k i)
      (streak_of-HasStreak yesterday falls.0 (solved_days day user rows) falls.1)
  where
    falls : (b : ℕ) × FallsBelow b (solved_days day user rows)
    falls = solved_days-FallsBelow day user rows
