-- ===== src/Sqlite/Invariant.antt =====
-- The invariant of the database of `SQLiteSubmissionRepository`: distinct ids, the limits on active
-- and running submissions, the table's CHECK constraint, and one retry at most of a submission.
use trainer.Prelude.{
  subst, ℕ, ◌+◌, ◌≤◌, ◌<◌, ◌≡◌, refl, Bool, true, false, Option, none, some, Bytes, arith, nat_eq,
  option_nat_eq, count_where, count_one, inl, inr, Bool-cases, Option-cases,
}
use trainer.Submission.{
  SubmissionStatus, queued, running, completed, failed, Verdict, SubmissionRecord, is_active,
  is_queued, is_running,
}
use trainer.Table.{
  Database, active_row, active_row_of, running_row_of, retries_row, insert_row, IdsBelow, All,
  IdsBelow-mono, find_id, update_id, count-update_id, update_id-IdsBelow, All-update_id,
  All-find_id,
}
use trainer.Sqlite.{SubmissionQueueLimits, has_room, find_running, finish_row, claimable, start_row}
use trainer.Sqlite.Calls.{empty}

-- The CHECK constraint of migrations/005-add-submission-queue.sql.
abbrev pub CheckedAs : SubmissionStatus → Option Verdict → Option Bytes → Type 0
CheckedAs queued none none = Unit {0}
CheckedAs running none none = Unit {0}
CheckedAs completed (some v) (some t) = Unit {0}
CheckedAs failed none (some t) = Unit {0}
CheckedAs _ _ _ = ⊥

pub checked_failed :
    (s : SubmissionStatus) (v : Option Verdict) (t : Option Bytes) (now : Bytes)
    → CheckedAs s v t
    → is_running s ≡ true
    → CheckedAs failed v (some now)
checked_failed running none none now c e = tt
checked_failed _ _ _ now c e = ground arith

pub checked_running :
    (s : SubmissionStatus) (v : Option Verdict) (t : Option Bytes)
    → CheckedAs s v t
    → is_queued s ≡ true
    → CheckedAs running v t
checked_running queued none none c e = tt
checked_running _ _ _ c e = ground arith

pub checked_queued :
    (s : SubmissionStatus) (v : Option Verdict) (t : Option Bytes)
    → CheckedAs s v t
    → is_running s ≡ true
    → CheckedAs queued v t
checked_queued running none none c e = tt
checked_queued _ _ _ c e = ground arith

abbrev pub IsChecked : SubmissionRecord → Type 0
IsChecked r = CheckedAs r.status r.verdict r.completed_at

module _ (limits : SubmissionQueueLimits) where
  pub record Inv (db : Database) : Type 0 where
    pub fresh : IdsBelow db.next_id db.submissions
    pub active_bounded : count_where active_row db.submissions ≤ limits.maximum_active_submissions
    pub user_bounded :
        (user : Option ℕ)
        → count_where (active_row_of user) db.submissions
          ≤ limits.maximum_active_submissions_per_user
    pub running_bounded :
        (user : Option ℕ)
        → count_where (running_row_of user) db.submissions
          ≤ limits.maximum_running_submissions_per_user
    pub checked : All IsChecked db.submissions
    pub retried_once : (id : ℕ) → count_where (retries_row id) db.submissions ≤ 1

  pub Inv-empty : Inv empty
  unfolding count_where
  Inv-empty = record {
    fresh = tt;
    active_bounded = omega arith;
    user_bounded = λ user. omega arith;
    running_bounded = λ user. omega arith;
    checked = tt;
    retried_once = λ id. omega arith;
  }

  -- A queued row enters where there is room and nothing retries what it retries.
  pub insert-Inv :
      (r : SubmissionRecord) (db : Database)
      → Inv db
      → has_room limits r.user_id db ≡ true
      → r.id ≡ db.next_id
      → r.status ≡ queued
      → IsChecked r
      → ((id : ℕ) → retries_row id r ≡ true → count_where (retries_row id) db.submissions ≡ 0)
      → Inv (insert_row r db)
  unfolding has_room insert_row count_where
  insert-Inv r db v room id_eq status_eq c once = record {
    fresh = (omega (arith, id_eq), IdsBelow-at);
    active_bounded = ground (arith, v.active_bounded);
    user_bounded =
        λ user. ground (arith, v.user_bounded user, option_nat_eq.same_iff r.user_id user);
    running_bounded = λ user. ground (arith, v.running_bounded user);
    checked = (c, v.checked);
    retried_once = λ id. ground (arith, v.retried_once id, once id);
  }
    where
      IdsBelow-at : IdsBelow r.id db.submissions
      IdsBelow-at = IdsBelow-mono db.next_id r.id db.submissions (omega (arith, id_eq)) v.fresh

  -- A running row is replaced by one that is not active.
  finish-Inv :
      (id : ℕ) (f : SubmissionRecord → SubmissionRecord) (r : SubmissionRecord) (db : Database)
      → Inv db
      → find_id id db.submissions ≡ some r
      → ((x : SubmissionRecord)
          → (is_active (f x).status ≡ false)
            × (is_running (f x).status ≡ false)
            × ((f x).id ≡ x.id)
            × ((f x).retry_of ≡ x.retry_of))
      → IsChecked (f r)
      → Inv (record db { submissions = update_id id f db.submissions })
  finish-Inv id f r db v e shape good = record {
    fresh = update_id-IdsBelow id f (λ x. (shape x).2) db.next_id db.submissions v.fresh;
    active_bounded = ground (arith, shape r, counted active_row, v.active_bounded);
    user_bounded =
        λ user. ground (arith, shape r, counted (active_row_of user), v.user_bounded user);
    running_bounded =
        λ user. ground (arith, shape r, counted (running_row_of user), v.running_bounded user);
    checked = All-update_id IsChecked id db.next_id f db.submissions r v.fresh e v.checked good;
    retried_once = λ k. ground (arith, shape r, counted (retries_row k), v.retried_once k);
  }
    where
      counted :
          (p : SubmissionRecord → Bool)
          → count_where p (update_id id f db.submissions) + count_one (p r)
            ≡ count_where p db.submissions + count_one (p (f r))
      counted p = count-update_id id f p db.next_id db.submissions r v.fresh e

  pub finish_row-Inv :
      (id : ℕ) (f : SubmissionRecord → SubmissionRecord) (db : Database)
      → Inv db
      → ((x : SubmissionRecord)
          → (is_active (f x).status ≡ false)
            × (is_running (f x).status ≡ false)
            × ((f x).id ≡ x.id)
            × ((f x).retry_of ≡ x.retry_of))
      → ((r : SubmissionRecord) → IsChecked r → is_running r.status ≡ true → IsChecked (f r))
      → Inv (finish_row id f db).1
  unfolding finish_row find_running
  finish_row-Inv id f db v shape good = elim (Option-cases (find_id id db.submissions)) [
    | inl e ↦ rw (e, finish_row, find_running) v
    | inr (r, e) ↦ elim (Bool-cases (is_running r.status)) [
      | inl t ↦
          rw (e, finish_row, find_running, t)
            (finish-Inv id f r db v e shape
              (good r (All-find_id IsChecked id db.submissions r v.checked e) t))
      | inr t ↦ rw (e, finish_row, find_running, t) v
    ]
  ]

  pub start-Inv :
      (r : SubmissionRecord) (db : Database)
      → Inv db
      → find_id r.id db.submissions ≡ some r
      → claimable limits db.submissions r ≡ true
      → Inv (record db { submissions = update_id r.id start_row db.submissions })
  unfolding claimable
  start-Inv r db v e t = record {
    fresh = update_id-IdsBelow r.id start_row (λ x. refl) db.next_id db.submissions v.fresh;
    active_bounded = ground (arith, counted active_row, v.active_bounded);
    user_bounded = λ user. ground (arith, counted (active_row_of user), v.user_bounded user);
    running_bounded = λ user. ground (
      arith,
      counted (running_row_of user),
      v.running_bounded user,
      free user,
      option_nat_eq.same_iff r.user_id user,
    );
    checked =
        All-update_id IsChecked r.id db.next_id start_row db.submissions r v.fresh e v.checked (
          checked_running r.status r.verdict r.completed_at
            (All-find_id IsChecked r.id db.submissions r v.checked e) (ground arith));
    retried_once = λ k. ground (arith, counted (retries_row k), v.retried_once k);
  }
    where
      counted :
          (p : SubmissionRecord → Bool)
          → count_where p (update_id r.id start_row db.submissions) + count_one (p r)
            ≡ count_where p db.submissions + count_one (p (start_row r))
      counted p = count-update_id r.id start_row p db.next_id db.submissions r v.fresh e

      free :
          (user : Option ℕ)
          → r.user_id ≡ user
          → count_where (running_row_of user) db.submissions
            < limits.maximum_running_submissions_per_user
      free user p =
          subst
            (λ u.
              count_where (running_row_of u) db.submissions
              < limits.maximum_running_submissions_per_user)
            p (ground arith)
