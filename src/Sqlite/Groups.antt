-- ===== src/Sqlite/Groups.antt =====
-- The groups of completed problems that `progress` builds
-- (backend/src/sqlite-submission-repository.cpp): one for each problem.
use trainer.Prelude.{
  suc, ◌+◌, ◌-◌, ◌≤◌, ◌≡◌, refl, ◌∙◌, ap, Bool, true, false, ◌&&◌, List, [], ◌∷◌, Bytes, arith,
  nat_eq, byte_eq, bytes_beq_iff, ltb, count_where, count_one, inl, inr, Bool-cases, option_nat_eq,
  ◌==◌, if◌then◌else◌,
}
use trainer.Sqlite.Reads.{bytes_ltb}
use trainer.Sqlite.Progress.{CompletedProblem, group_minimum, groups_of}

abbrev pub completed_later : CompletedProblem → CompletedProblem → Bool
completed_later a b = bytes_ltb b.completed_at a.completed_at

abbrev pub of_problem : Bytes → CompletedProblem → Bool
of_problem id c = c.problem_id == id

-- The other groups stay.
count-group_minimum_other :
    (id problem_id time : Bytes) (groups : List CompletedProblem)
    → problem_id == id ≡ false
    → count_where (of_problem id) (group_minimum bytes_ltb problem_id time groups)
      ≡ count_where (of_problem id) groups
unfolding count_where group_minimum
count-group_minimum_other id problem_id time [] h = rw h refl
count-group_minimum_other id problem_id time (c ∷ groups) h =
    elim (Bool-cases (c.problem_id == problem_id)) [
      | inl t ↦ elim (Bool-cases (bytes_ltb time c.completed_at)) [
        | inl u ↦ rw (t, u) refl
        | inr u ↦ rw (t, u) refl
      ]
      | inr t ↦ rw t (
          ap (λ n. count_one (c.problem_id == id) + n)
            (count-group_minimum_other id problem_id time groups h))
    ]

-- The group of the problem is added where it is missing.
count-group_minimum :
    (id time : Bytes) (groups : List CompletedProblem)
    → id == id ≡ true
    → count_where (of_problem id) (group_minimum bytes_ltb id time groups)
      ≡ suc (count_where (of_problem id) groups - 1)
unfolding count_where group_minimum
count-group_minimum id time [] h = rw h refl
count-group_minimum id time (c ∷ groups) h = elim (Bool-cases (c.problem_id == id)) [
  | inl t ↦ elim (Bool-cases (bytes_ltb time c.completed_at)) [
    | inl u ↦ rw (t, u, if◌then◌else◌, t) (omega arith)
    | inr u ↦ rw (t, u, if◌then◌else◌, t) (omega arith)
  ]
  | inr t ↦ rw (t, if◌then◌else◌, t) (omega (arith, count-group_minimum id time groups h))
]

-- One group for each problem, and none without a time.
pub count-groups_of :
    (id : Bytes) (times : List (Bytes × Bytes))
    → count_where (of_problem id) (groups_of bytes_ltb times)
      ≡ count_one (ltb 0 (count_where (λ t. t.0 == id) times))
unfolding count_where groups_of
count-groups_of id [] = refl
count-groups_of id ((problem_id, time) ∷ times) = elim (Bool-cases (problem_id == id)) [
  | inl t ↦ rw t (
      ap
        (λ x.
          count_where (of_problem id) (group_minimum bytes_ltb x time (groups_of bytes_ltb times)))
        ((bytes_beq_iff problem_id id).0 t)
      ∙ count-group_minimum id time (groups_of bytes_ltb times) ((bytes_beq_iff id id).1 refl)
      ∙ ground (arith, count-groups_of id times))
  | inr t ↦ rw t (
      count-group_minimum_other id problem_id time (groups_of bytes_ltb times) t
      ∙ count-groups_of id times
      ∙ ap (λ n. count_one (ltb 0 n)) (omega arith))
]

pub count_mono_and :
    {A : Type 0} (p q : A → Bool) (xs : List A)
    → count_where (λ x. p x && q x) xs ≤ count_where p xs
unfolding count_where
count_mono_and p q [] = omega arith
count_mono_and p q (x ∷ xs) = ground (arith, count_mono_and p q xs)
