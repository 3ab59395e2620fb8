-- ===== src/Postgres/Agreement.antt =====
-- The calls of the PostgreSQL repository beside those of the SQLite repository.
use trainer.Prelude.{
  ℕ, ◌+◌, ◌≤◌, arith, ◌≡◌, refl, ◌⊎◌, inl, inr, Bool-cases, Option-cases, none, some, Bytes, codes,
  ok, err, Result,
}
use trainer.Submission.{SubmissionRequest, SubmissionRecord, RepositoryError}
use trainer.Submission.Columns.{columns}
use trainer.Submission.Names.{read_record-columns}
use trainer.Table.{Database, oldest_where}
use trainer.Sqlite.{
  works, SubmissionQueueLimits, has_room, find_running, finish_row, claimable, start_row, new_row,
  create as create_row, claim_next as claim_row,
}
use trainer.Sqlite.Retry.{RetryOutcomes, retry_row, retry_insert, retry as retry_once}
use trainer.Postgres.Decoding.{record_of-read_record}
use trainer.Postgres.{
  Reply, LockedReplies, with_next_id, execute, execute_locked, create, created, claimed, retried,
  insert_statement, claim_statement, retry_statement, finished, finish_statement, claim_next, retry,
}

-- A reply is an error that changes nothing but the next id, which may have grown, or what is
-- expected.
abbrev pub Agrees :
    {A : Type 0}
    → Result RepositoryError A × Database
    → Result RepositoryError A × Database
    → Database
    → Type 0
Agrees reply expected db =
    (((e : RepositoryError) × (reply.0 ≡ err e))
      × ((n : ℕ) × (db.next_id ≤ n) × (reply.1 ≡ with_next_id n db)))
    ⊎ (reply ≡ expected)

-- A locked statement fails and changes nothing but the next id, or is carried out.
execute_locked_lem :
    {A : Type 0} (r : LockedReplies) (statement : Database → A × Database) (db : Database)
    → ((e : Bytes) × (n : ℕ) × (db.next_id ≤ n)
        × (execute_locked r statement db ≡ (err e, with_next_id n db)))
      ⊎ (execute_locked r statement db ≡ (ok (statement db).0, (statement db).1))
unfolding execute_locked
execute_locked_lem r statement db = elim (Bool-cases r.begins) [
  | inr b ↦ inl (codes "No result", db.next_id, omega arith, rw (b, execute_locked) refl)
  | inl b ↦ elim (Bool-cases r.locks) [
    | inr l ↦ inl (codes "No result", db.next_id, omega arith, rw (b, l, execute_locked) refl)
    | inl l ↦ elim (Option-cases r.statement) [
      | inr (e, q) ↦ inl (e, db.next_id + r.drawn, omega arith, rw (b, l, q, execute_locked) refl)
      | inl q ↦ elim (Bool-cases r.commits) [
        | inl c ↦ inr (rw (b, l, q, c, execute_locked) refl)
        | inr c ↦ inl (
          codes "No result",
          db.next_id + r.drawn,
          omega arith,
          rw (b, l, q, c, execute_locked) refl,
        )
      ]
    ]
  ]
]

execute_lem :
    {A : Type 0} (r : Reply) (statement : Database → A × Database) (db : Database)
    → ((e : Bytes) × (execute r statement db ≡ (err e, db)))
      ⊎ (execute r statement db ≡ (ok (statement db).0, (statement db).1))
unfolding execute
execute_lem none statement db = inr refl
execute_lem (some e) statement db = inl (e, refl)

pub finish-Agrees :
    (operation : Bytes) (r : Reply) (id : ℕ) (f : SubmissionRecord → SubmissionRecord)
    (db : Database)
    → Agrees (finished operation (execute r (finish_statement id f) db)) (finish_row id f db) db
unfolding execute finished finish_statement finish_row
finish-Agrees operation (some e) id f db = inl ((_, refl), (db.next_id, omega arith, refl))
finish-Agrees operation none id f db = elim (Option-cases (find_running id db.submissions)) [
  | inl e ↦
      inl (rw (e, finished, execute, finish_statement) ((_, refl), (db.next_id, omega arith, refl)))
  | inr (r, e) ↦ inr (
      rw (e, finished, execute, finish_statement, record_of-read_record (columns (f r)), finish_row)
        refl)
]

abbrev pub all_work : RetryOutcomes
all_work = record { begin = none; insertion = works; auditing = works; commit = none }

module _ (limits : SubmissionQueueLimits) where
  -- `create` fails and changes nothing but the next id, or returns and leaves what the SQLite repository's does when
  -- its statements work.
  pub create-Agrees :
      (r : LockedReplies) (counting : Reply) (now : Bytes) (request : SubmissionRequest)
      (db : Database)
      → Agrees
          (create limits r counting now request db)
          (create_row limits works works now request db)
          db
  unfolding create created insert_statement create_row
  create-Agrees r counting now request db =
      elim (execute_locked_lem r (insert_statement limits now request) db) [
        | inl (m, n, le, e) ↦ rw (e, create, created) (inl ((_, refl), (n, le, refl)))
        | inr e ↦ elim (Bool-cases (has_room limits request.user_id db)) [
          | inl t ↦ inr (
              rw
                (
                  e,
                  create,
                  created,
                  insert_statement,
                  t,
                  record_of-read_record (columns (new_row now request db)),
                  create_row,
                )
                refl)
          | inr t ↦ inl (
              rw (e, create, created, insert_statement, t)
                ((_, refl), (db.next_id, omega arith, refl)))
        ]
      ]

  -- `claim_next` fails and changes nothing but the next id, or returns and leaves what the SQLite repository's does
  -- when its statement works.
  pub claim_next-Agrees :
      (r : LockedReplies) (db : Database)
      → Agrees (claim_next limits r db) (claim_row limits works db) db
  unfolding claim_next claimed claim_statement claim_row
  claim_next-Agrees r db = elim (execute_locked_lem r (claim_statement limits) db) [
    | inl (m, n, le, e) ↦ rw (e, claim_next, claimed) (inl ((_, refl), (n, le, refl)))
    | inr e ↦ elim (Option-cases (oldest_where (claimable limits db.submissions) db.submissions)) [
      | inl q ↦ inr (rw (e, claim_next, claimed, claim_statement, q, claim_row) refl)
      | inr (row, q) ↦ inr (
          rw
            (
              e,
              claim_next,
              claimed,
              claim_statement,
              q,
              record_of-read_record (columns (start_row row)),
              read_record-columns (start_row row),
              claim_row,
            )
            refl)
    ]
  ]

  -- `retry`, which writes the new row and its audit entry in one statement, fails and changes nothing
  -- or returns and leaves what the transaction of the SQLite repository does.
  pub retry-Agrees :
      (r : LockedReplies) (now : Bytes) (id admin : ℕ) (db : Database)
      → Agrees (retry limits r now id admin db) (retry_once limits all_work now id admin db) db
  unfolding retry retried retry_statement retry_once
  retry-Agrees r now id admin db =
      elim (execute_locked_lem r (retry_statement limits now id admin) db) [
        | inl (m, n, le, e) ↦ rw (e, retry, retried) (inl ((_, refl), (n, le, refl)))
        | inr e ↦ elim (Option-cases (retry_row limits now id db)) [
          | inl q ↦ inl (
              rw (e, retry, retried, retry_statement, q)
                ((_, refl), (db.next_id, omega arith, refl)))
          | inr (row, q) ↦ inr (
              rw
                (
                  e,
                  retry,
                  retried,
                  retry_statement,
                  q,
                  record_of-read_record (columns row),
                  read_record-columns row,
                  retry_once,
                  retry_insert,
                )
                refl)
        ]
      ]
