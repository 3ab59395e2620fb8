-- ===== src/Sqlite/Ordering.antt =====
-- Which rows the queries of backend/src/sqlite-submission-repository.cpp return, and their order.
use trainer.Prelude.{
  ℕ, ◌≤◌, ◌≡◌, ◌↔◌, refl, sym, ap, subst, ◌∙◌, Bool, true, false, ◌&&◌, not, nat_eq, option_nat_eq,
  ◌==◌, bytes_beq_iff, List, [], ◌∷◌, Bytes, codes, arith, bytes_beq, count_where, take, length,
  length-take-le, ok, IsSortedBy, sort_by-IsSortedBy, count-sort_by, take-IsSortedBy,
}
use trainer.Submission.{
  SubmissionStatus, queued, running, completed, failed, SubmissionRecord, submission_status_name,
}
use trainer.Submission.Columns.{stored_status, parse_status}
use trainer.Submission.Names.{read_record-columns, parse-stored_status}
use mathlib.Core.Option.{Option, none, some, some_inj}
use trainer.Table.{Database, select_where, count-select_where}
use trainer.Sqlite.{works}
use trainer.Sqlite.Reads.{
  bytes_ltb, newer, newest_first, read_records, query, in_history, history, SubmissionAdminFilter,
  lower_first, status_parameter, matches, equals, clause, list_filtered,
}

pub bytes_ltb_asym : (a b : Bytes) → bytes_ltb a b ≡ true → bytes_ltb b a ≡ false
unfolding bytes_ltb
bytes_ltb_asym [] [] h = refl
bytes_ltb_asym [] (d ∷ ds) h = refl
bytes_ltb_asym (c ∷ cs) [] h = ground (arith, h)
bytes_ltb_asym (c ∷ cs) (d ∷ ds) h = ground (arith, h, bytes_ltb_asym cs ds)

bytes_ltb_differ : (a b : Bytes) → bytes_ltb a b ≡ true → bytes_beq b a ≡ false
unfolding bytes_ltb bytes_beq
bytes_ltb_differ [] [] h = ground (arith, h)
bytes_ltb_differ [] (d ∷ ds) h = refl
bytes_ltb_differ (c ∷ cs) [] h = refl
bytes_ltb_differ (c ∷ cs) (d ∷ ds) h = ground (arith, h, bytes_ltb_differ cs ds)

bytes_ltb_level : (a b : Bytes) → bytes_beq a b ≡ true → bytes_ltb a b ≡ false
unfolding bytes_ltb bytes_beq
bytes_ltb_level [] [] h = refl
bytes_ltb_level [] (d ∷ ds) h = ground (arith, h)
bytes_ltb_level (c ∷ cs) [] h = refl
bytes_ltb_level (c ∷ cs) (d ∷ ds) h = ground (arith, h, bytes_ltb_level cs ds)

newer_asym : (a b : SubmissionRecord) → newer a b ≡ true → newer b a ≡ false
unfolding newer
newer_asym a b h = ground (
  arith,
  h,
  bytes_ltb_asym b.created_at a.created_at,
  bytes_ltb_differ b.created_at a.created_at,
  bytes_ltb_level a.created_at b.created_at,
  bytes_ltb_level b.created_at a.created_at,
)

-- No row stands behind one that is older.
abbrev pub IsNewestFirst : List SubmissionRecord → Type 0
IsNewestFirst rows = IsSortedBy newer rows

read_records_lem : (rows : List SubmissionRecord) → read_records rows ≡ ok rows
unfolding read_records
read_records_lem [] = refl
read_records_lem (r ∷ rows) = rw (read_record-columns r, read_records_lem rows) refl

-- A row that a filter asks for: each member that is given is met.
pub record Fits (filter : SubmissionAdminFilter) (r : SubmissionRecord) : Type 0 where
  pub status : (status : SubmissionStatus) → filter.status ≡ some status → r.status ≡ status
  pub error_type :
      (error_type : Bytes) → filter.error_type ≡ some error_type → r.error_type ≡ some error_type
  pub language : (language : Bytes) → filter.language ≡ some language → r.language ≡ language
  pub problem_id :
      (problem_id : Bytes) → filter.problem_id ≡ some problem_id → r.problem_id ≡ problem_id
  pub user_id : (user : ℕ) → filter.user_id ≡ some user → r.user_id ≡ some user
  pub created_from :
      (from : Bytes) → filter.created_from ≡ some from → bytes_ltb r.created_at from ≡ false
  pub created_to : (to : Bytes) → filter.created_to ≡ some to → bytes_ltb to r.created_at ≡ false

-- The row `a` may stand in front of `b`: it is not created earlier, and for one time its id is not
-- lower.
pub record IsInFront (a b : SubmissionRecord) : Type 0 where
  pub not_older : bytes_ltb a.created_at b.created_at ≡ false
  pub by_id : a.created_at ≡ b.created_at → b.id ≤ a.id

abbrev pub NewestFirst : List SubmissionRecord → Type 0
NewestFirst [] = Unit {0}
NewestFirst (a ∷ []) = Unit {0}
NewestFirst (a ∷ b ∷ rows) = IsInFront a b × NewestFirst (b ∷ rows)

IsInFront-newer : (a b : SubmissionRecord) → newer b a ≡ false → IsInFront a b
unfolding newer
IsInFront-newer a b h = record {
  not_older = ground (arith, h);
  by_id = λ e. ground (arith, h, (bytes_beq_iff b.created_at a.created_at).1 (sym e));
}

NewestFirst-IsSortedBy : (rows : List SubmissionRecord) → IsNewestFirst rows → NewestFirst rows
NewestFirst-IsSortedBy [] h = tt
NewestFirst-IsSortedBy (a ∷ []) h = tt
NewestFirst-IsSortedBy (a ∷ b ∷ rows) h =
    (IsInFront-newer a b h.0, NewestFirst-IsSortedBy (b ∷ rows) h.1)

-- The text that the filter binds for a status is the text that the column holds.
pub status_parameter-stored_status :
    (status : SubmissionStatus) → status_parameter status ≡ stored_status status
unfolding status_parameter stored_status submission_status_name lower_first codes
status_parameter-stored_status queued = refl
status_parameter-stored_status running = refl
status_parameter-stored_status completed = refl
status_parameter-stored_status failed = refl

same_user_iff : (user : ℕ) (found : Option ℕ) → ((found == some user) ≡ true) ↔ (found ≡ some user)
same_user_iff user found = option_nat_eq.same_iff found (some user)

in_history_iff :
    (user : ℕ) (problem_id : Bytes) (r : SubmissionRecord)
    → (in_history user problem_id r ≡ true)
      ↔ ((r.user_id ≡ some user) × (r.problem_id ≡ problem_id))
unfolding in_history
in_history_iff user problem_id r = (
  λ h. (
    (same_user_iff user r.user_id).0 (ground (arith, h)),
    (bytes_beq_iff r.problem_id problem_id).0 (ground (arith, h)),
  ),
  λ (u, q).
      ground
        (arith, (same_user_iff user r.user_id).1 u, (bytes_beq_iff r.problem_id problem_id).1 q),
)

-- A clause of the filter holds exactly if its value, where there is one, is met.
clause_iff :
    {A : Type 0} (wanted : Option A) (test : A → Bool) (Meets : A → Type 0)
    → ((a : A) → (test a ≡ true) ↔ Meets a)
    → (clause wanted test ≡ true) ↔ ((a : A) → wanted ≡ some a → Meets a)
clause_iff none test Meets each = (λ h a e. absurd (cc e), λ h. refl)
clause_iff (some a) test Meets each =
    (λ h b e. subst Meets (some_inj.0 e) ((each a).0 h), λ h. (each a).1 (h a refl))

not_iff : (b : Bool) → (not b ≡ true) ↔ (b ≡ false)
not_iff true = (λ h. sym h, λ h. sym h)
not_iff false = (λ h. refl, λ h. refl)

equals_iff :
    (wanted : Bytes) (found : Option Bytes)
    → (equals (some wanted) found ≡ true) ↔ (found ≡ some wanted)
equals_iff wanted none = (λ h. absurd (ground (arith, h)), λ h. absurd (cc h))
equals_iff wanted (some text) = (
  λ h. ap some ((bytes_beq_iff text wanted).0 h),
  λ h. (bytes_beq_iff text wanted).1 (some_inj.0 h),
)

status_iff :
    (found status : SubmissionStatus)
    → (bytes_beq (stored_status found) (status_parameter status) ≡ true) ↔ (found ≡ status)
status_iff found status = (
  λ h. some_inj.0 (
      sym (parse-stored_status found)
      ∙ ap parse_status (
          (bytes_beq_iff (stored_status found) (status_parameter status)).0 h
          ∙ status_parameter-stored_status status)
      ∙ parse-stored_status status),
  λ e.
      (bytes_beq_iff (stored_status found) (status_parameter status)).1
        (ap stored_status e ∙ sym (status_parameter-stored_status status)),
)

matches_iff :
    (filter : SubmissionAdminFilter) (r : SubmissionRecord)
    → (matches filter r ≡ true) ↔ Fits filter r
unfolding matches
matches_iff filter r =
    let status = clause_iff filter.status _ (λ s. r.status ≡ s) (λ s. status_iff r.status s) in
    let error_type =
      clause_iff filter.error_type _ (λ e. r.error_type ≡ some e)
        (λ e. equals_iff e r.error_type) in
    let language =
      clause_iff filter.language _ (λ l. r.language ≡ l) (λ l. bytes_beq_iff r.language l) in
    let problem_id =
      clause_iff filter.problem_id _ (λ p. r.problem_id ≡ p) (λ p. bytes_beq_iff r.problem_id p) in
    let user_id =
      clause_iff filter.user_id _ (λ u. r.user_id ≡ some u) (λ u. same_user_iff u r.user_id) in
    let created_from =
      clause_iff filter.created_from _ (λ x. bytes_ltb r.created_at x ≡ false)
        (λ x. not_iff (bytes_ltb r.created_at x)) in
    let created_to =
      clause_iff filter.created_to _ (λ x. bytes_ltb x r.created_at ≡ false)
        (λ x. not_iff (bytes_ltb x r.created_at)) in
    (
      λ h. record {
        status = status.0 (ground (arith, h));
        error_type = error_type.0 (ground (arith, h));
        language = language.0 (ground (arith, h));
        problem_id = problem_id.0 (ground (arith, h));
        user_id = user_id.0 (ground (arith, h));
        created_from = created_from.0 (ground (arith, h));
        created_to = created_to.0 (ground (arith, h));
      },
      λ f. ground (
        arith,
        status.1 f.status,
        error_type.1 f.error_type,
        language.1 f.language,
        problem_id.1 f.problem_id,
        user_id.1 f.user_id,
        created_from.1 f.created_from,
        created_to.1 f.created_to,
      ),
    )

module _ (db : Database) where
  -- The rows that are wanted, each as often as it is stored, the newest first.
  pub record Selected (Wanted : SubmissionRecord → Type 0) (rows : List SubmissionRecord)
      : Type 0 where
    pub choice : SubmissionRecord → Bool
    pub chosen : (r : SubmissionRecord) → (choice r ≡ true) ↔ Wanted r
    pub ordered : NewestFirst rows
    pub complete :
        (test : SubmissionRecord → Bool)
        → count_where test rows ≡ count_where (λ r. choice r && test r) db.submissions

  -- `history` returns the user's submissions to the problem, every one of them and no other, the
  -- newest first.
  pub history_lem :
      (user : ℕ) (problem_id : Bytes)
      → (rows : List SubmissionRecord) × (history works user problem_id db ≡ ok rows)
        × Selected (λ r. (r.user_id ≡ some user) × (r.problem_id ≡ problem_id)) rows
  unfolding history query
  history_lem user problem_id = (
    newest_first (select_where (in_history user problem_id) db.submissions),
    read_records_lem _,
    record {
      choice = in_history user problem_id;
      chosen = in_history_iff user problem_id;
      ordered = NewestFirst-IsSortedBy _ (
          sort_by-IsSortedBy newer newer_asym
            (select_where (in_history user problem_id) db.submissions));
      complete = λ test. count-sort_by newer test _ ∙ count-select_where _ test db.submissions;
    },
  )

  -- `list_filtered` returns the 500 newest of the submissions that match the filter, in order; all
  -- of them if there are at most 500.
  pub list_filtered_lem :
      (filter : SubmissionAdminFilter)
      → (rows : List SubmissionRecord) × (list_filtered works filter db ≡ ok (take 500 rows))
        × (length (take 500 rows) ≤ 500)
        × NewestFirst (take 500 rows)
        × Selected (Fits filter) rows
  unfolding list_filtered query
  list_filtered_lem filter = (
    newest_first (select_where (matches filter) db.submissions),
    read_records_lem _,
    length-take-le 500 _,
    NewestFirst-IsSortedBy _ (
        take-IsSortedBy newer 500 _
          (sort_by-IsSortedBy newer newer_asym (select_where (matches filter) db.submissions))),
    record {
      choice = matches filter;
      chosen = matches_iff filter;
      ordered =
          NewestFirst-IsSortedBy _
            (sort_by-IsSortedBy newer newer_asym (select_where (matches filter) db.submissions));
      complete = λ test. count-sort_by newer test _ ∙ count-select_where _ test db.submissions;
    },
  )
