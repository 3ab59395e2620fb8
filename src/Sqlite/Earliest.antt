-- ===== src/Sqlite/Earliest.antt =====
-- The time of a completed problem that `progress` reports, MIN(completed_at)
-- (backend/src/sqlite-submission-repository.cpp).
use trainer.Prelude.{
  ◌≤◌, ◌≡◌, refl, true, false, ◌&&◌, List, [], ◌∷◌, Bytes, arith, nat_eq, byte_eq, bytes_beq,
  bytes_beq_iff, subst, insert_by, sort_by, count_where, inl, inr, Bool-cases, option_nat_eq, ◌==◌,
}
use trainer.Table.{count_mono}
use trainer.Sqlite.Reads.{bytes_ltb}
use trainer.Sqlite.Progress.{CompletedProblem, group_minimum, groups_of}
use trainer.Sqlite.Groups.{completed_later, of_problem, count-groups_of, count_mono_and}

-- The group's time is a completion time of its problem, and none of the problem's is earlier.
pub record IsFirst (times : List (Bytes × Bytes)) (c : CompletedProblem) : Type 0 where
  pub held : 1 ≤ count_where (λ t. t.0 == c.problem_id && t.1 == c.completed_at) times
  pub earliest : count_where (λ t. t.0 == c.problem_id && bytes_ltb t.1 c.completed_at) times ≡ 0

abbrev pub AllFirst : List (Bytes × Bytes) → List CompletedProblem → Type 0
AllFirst times [] = Unit {0}
AllFirst times (c ∷ groups) = IsFirst times c × AllFirst times groups

bytes_beq_sym : (a b : Bytes) → bytes_beq a b ≡ bytes_beq b a
unfolding bytes_beq
bytes_beq_sym [] [] = refl
bytes_beq_sym [] (d ∷ ds) = refl
bytes_beq_sym (c ∷ cs) [] = refl
bytes_beq_sym (c ∷ cs) (d ∷ ds) = ground (arith, bytes_beq_sym cs ds)

bytes_ltb_irrefl : (a : Bytes) → bytes_ltb a a ≡ false
unfolding bytes_ltb
bytes_ltb_irrefl [] = refl
bytes_ltb_irrefl (c ∷ cs) = ground (arith, bytes_ltb_irrefl cs)

bytes_ltb_trans :
    (a b c : Bytes) → bytes_ltb a b ≡ true → bytes_ltb b c ≡ true → bytes_ltb a c ≡ true
unfolding bytes_ltb
bytes_ltb_trans [] [] c h k = absurd (ground (arith, h))
bytes_ltb_trans [] (y ∷ ys) [] h k = absurd (ground (arith, k))
bytes_ltb_trans [] (y ∷ ys) (z ∷ zs) h k = refl
bytes_ltb_trans (x ∷ xs) [] c h k = absurd (ground (arith, h))
bytes_ltb_trans (x ∷ xs) (y ∷ ys) [] h k = absurd (ground (arith, k))
bytes_ltb_trans (x ∷ xs) (y ∷ ys) (z ∷ zs) h k = ground (arith, h, k, bytes_ltb_trans xs ys zs)

-- A time of another problem changes nothing for a group.
other-IsFirst :
    (id time : Bytes) (times : List (Bytes × Bytes)) (c : CompletedProblem)
    → c.problem_id == id ≡ false
    → IsFirst times c
    → IsFirst ((id, time) ∷ times) c
unfolding count_where
other-IsFirst id time times c ne first = record {
  held = ground (arith, bytes_beq_sym id c.problem_id, ne, first.held);
  earliest = ground (arith, bytes_beq_sym id c.problem_id, ne, first.earliest);
}

others-AllFirst :
    (id time : Bytes) (times : List (Bytes × Bytes)) (groups : List CompletedProblem)
    → count_where (of_problem id) groups ≡ 0
    → AllFirst times groups
    → AllFirst ((id, time) ∷ times) groups
unfolding count_where
others-AllFirst id time times [] absent h = tt
others-AllFirst id time times (c ∷ groups) absent h = (
  other-IsFirst id time times c (ground (arith, absent)) h.0,
  others-AllFirst id time times groups (ground (arith, absent)) h.1,
)

-- The group whose problem has the new time.
earlier-IsFirst :
    (time : Bytes) (times : List (Bytes × Bytes)) (c : CompletedProblem)
    → bytes_ltb time c.completed_at ≡ true
    → IsFirst times c
    → IsFirst ((c.problem_id, time) ∷ times) (record c { completed_at = time })
unfolding count_where
earlier-IsFirst time times c h first = record {
  held =
      ground
        (arith, (bytes_beq_iff c.problem_id c.problem_id).1 refl, (bytes_beq_iff time time).1 refl);
  earliest = ground (
    arith,
    bytes_ltb_irrefl time,
    first.earliest,
    count_mono (λ t. t.0 == c.problem_id && bytes_ltb t.1 time)
        (λ t. t.0 == c.problem_id && bytes_ltb t.1 c.completed_at)
        (λ t m. ground (arith, m, h, bytes_ltb_trans t.1 time c.completed_at)) times,
  );
}

later-IsFirst :
    (time : Bytes) (times : List (Bytes × Bytes)) (c : CompletedProblem)
    → bytes_ltb time c.completed_at ≡ false
    → IsFirst times c
    → IsFirst ((c.problem_id, time) ∷ times) c
unfolding count_where
later-IsFirst time times c h first = record {
  held = ground (arith, first.held);
  earliest = ground (arith, h, first.earliest);
}

new-IsFirst :
    (id time : Bytes) (times : List (Bytes × Bytes))
    → count_where (λ t. t.0 == id) times ≡ 0
    → IsFirst ((id, time) ∷ times) (record { problem_id = id; completed_at = time })
unfolding count_where
new-IsFirst id time times h = record {
  held = ground (arith, (bytes_beq_iff id id).1 refl, (bytes_beq_iff time time).1 refl);
  earliest = ground (
    arith,
    bytes_ltb_irrefl time,
    h,
    count_mono_and (λ t. t.0 == id) (λ t. bytes_ltb t.1 time) times,
  );
}

group_minimum-AllFirst :
    (id time : Bytes) (times : List (Bytes × Bytes)) (groups : List CompletedProblem)
    → count_where (of_problem id) groups ≤ 1
    → (count_where (of_problem id) groups ≡ 0 → count_where (λ t. t.0 == id) times ≡ 0)
    → AllFirst times groups
    → AllFirst ((id, time) ∷ times) (group_minimum bytes_ltb id time groups)
unfolding count_where group_minimum
group_minimum-AllFirst id time times [] once covered h =
    (new-IsFirst id time times (covered refl), tt)
group_minimum-AllFirst id time times (c ∷ groups) once covered h =
    elim (Bool-cases (c.problem_id == id)) [
      | inl t ↦ elim (Bool-cases (bytes_ltb time c.completed_at)) [
        | inl u ↦
            rw (t, u)
              (
                subst (λ k. IsFirst ((k, time) ∷ times) (record c { completed_at = time }))
                    ((bytes_beq_iff c.problem_id id).0 t) (earlier-IsFirst time times c u h.0),
                others-AllFirst id time times groups (ground (arith, once, t)) h.1,
              )
        | inr u ↦
            rw (t, u)
              (
                subst (λ k. IsFirst ((k, time) ∷ times) c) ((bytes_beq_iff c.problem_id id).0 t)
                    (later-IsFirst time times c u h.0),
                others-AllFirst id time times groups (ground (arith, once, t)) h.1,
              )
      ]
      | inr t ↦ rw t (
        other-IsFirst id time times c t h.0,
        group_minimum-AllFirst id time times groups (ground (arith, once, t))
            (λ e. covered (ground (arith, e, t))) h.1,
      )
    ]

pub groups_of-AllFirst : (times : List (Bytes × Bytes)) → AllFirst times (groups_of bytes_ltb times)
unfolding groups_of
groups_of-AllFirst [] = tt
groups_of-AllFirst ((id, time) ∷ times) =
    group_minimum-AllFirst id time times (groups_of bytes_ltb times)
      (ground (arith, count-groups_of id times)) (λ e. ground (arith, e, count-groups_of id times))
      (groups_of-AllFirst times)

insert_by-AllFirst :
    (times : List (Bytes × Bytes)) (c : CompletedProblem) (groups : List CompletedProblem)
    → IsFirst times c
    → AllFirst times groups
    → AllFirst times (insert_by completed_later c groups)
unfolding insert_by
insert_by-AllFirst times c [] f h = (f, tt)
insert_by-AllFirst times c (d ∷ groups) f h = elim (Bool-cases (completed_later d c)) [
  | inl t ↦ rw t (h.0, insert_by-AllFirst times c groups f h.1)
  | inr t ↦ rw t (f, h)
]

pub sort_by-AllFirst :
    (times : List (Bytes × Bytes)) (groups : List CompletedProblem)
    → AllFirst times groups
    → AllFirst times (sort_by completed_later groups)
unfolding sort_by
sort_by-AllFirst times [] h = tt
sort_by-AllFirst times (c ∷ groups) h =
    insert_by-AllFirst times c (sort_by completed_later groups) h.0
      (sort_by-AllFirst times groups h.1)
