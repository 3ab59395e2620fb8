-- ===== src/Worker/Pool.antt =====
-- `start`, `stop` and `worker_loop` of `SubmissionWorkerPool`
-- (backend/src/submission-worker.cpp). The flags are read and written under the mutex; a thread is
-- its control point.
use trainer.Prelude.{
  ℕ, zero, suc, Bool, true, false, Option, none, some, List, [], ◌∷◌, Bytes, Result, ok, err,
  if◌then◌else◌, ◌≡◌, refl,
}
use trainer.Submission.{RepositoryError}
use trainer.Worker.{WorkResult, processed, idle, repository_error}

-- Where a thread stands in `worker_loop`: before the test of `stopping_`, in `process_one`, in
-- `wait_for`, or returned.
pub data Thread : Type 0 where
  testing working waiting returned : Thread

pub record PoolState : Type 0 where
  pub worker_count : ℕ
  pub stopping : Bool
  pub started : Bool
  pub workers : List Thread

spawn : ℕ → List Thread
spawn zero = []
spawn (suc n) = testing ∷ spawn n

-- `start` with the result of `recover_running`: the message of an error, if it fails.
unfoldable pub start : Result RepositoryError ℕ → PoolState → Option Bytes × PoolState
unfolding spawn
start recovered p = if p.started then (none, p) else elim recovered [
  | err e ↦ (some e.message, p)
  | ok n ↦ (none, record p { stopping = false; started = true; workers = spawn p.worker_count })
]

-- `stop` up to the joins: the flag is set and every waiting thread is notified.
unfoldable pub request_stop : PoolState → PoolState
request_stop p = if p.started then record p { stopping = true } else p

-- `stop` behind the joins.
unfoldable pub finish_stop : PoolState → PoolState
finish_stop p = if p.started then record p { workers = []; started = false } else p

-- One move of a thread: the test of the flag, the end of `process_one` with its result, or the
-- end of the wait and the test behind it.
unfoldable pub move : Bool → WorkResult → Thread → Thread
move stopping result testing = if stopping then returned else working
move stopping processed working = testing
move stopping idle working = waiting
move stopping repository_error working = waiting
move stopping result waiting = if stopping then returned else testing
move stopping result returned = returned

-- A thread's moves, given what `process_one` returns each time.
unfoldable pub moves : Bool → List WorkResult → Thread → Thread
unfolding move
moves stopping [] t = t
moves stopping (r ∷ rs) t = moves stopping rs (move stopping r t)

returned_stays : (rs : List WorkResult) → moves true rs returned ≡ returned
unfolding moves
returned_stays [] = refl
returned_stays (r ∷ rs) = returned_stays rs

-- Once the stop flag is set, a thread returns within two moves, wherever it stands: where a move
-- is one test of the flag, one call of `process_one` or one wait.
pub stopping_returns :
    (r1 r2 : WorkResult) (rest : List WorkResult) (t : Thread)
    → moves true (r1 ∷ r2 ∷ rest) t ≡ returned
unfolding moves
stopping_returns r1 r2 rest testing = returned_stays rest
stopping_returns processed r2 rest working = returned_stays rest
stopping_returns idle r2 rest working = returned_stays rest
stopping_returns repository_error r2 rest working = returned_stays rest
stopping_returns r1 r2 rest waiting = returned_stays rest
stopping_returns r1 r2 rest returned = returned_stays rest
