-- ===== src/Collection/Pool.antt =====
-- internal/core/collection/planner.go, `runBatch`: the goroutines of one batch, their two channels
-- and the context, as a state that takes one step at a time. A schedule is a list of steps; a
-- goroutine that is picked while it is blocked stays as it is.
pub mod Laws
pub mod Bounds
pub mod Schedule
pub mod Accounts
pub mod Results
pub mod Answer
use dbprobe.Base.{
  ℕ, zero, suc, ◌+◌, ◌*◌, ltb, Option, none, some, Bool, true, false, ◌&&◌, String, List, [], ◌∷◌,
  ◌++◌, if◌then◌else◌,
}
use dbprobe.Base.Lists.{length, all}
use dbprobe.Base.Outcome.{Outcome, ok, err}
use dbprobe.Base.Sort.{sort}
use dbprobe.Collection.{BatchJob, BatchResult, perform}

-- The goroutine that sends the jobs: at the head of its loop with the jobs that are left, in the
-- `select` that offers one, or returned, which closed `jobCh`.
pub data Feeder (N : Type 0) : Type 0 where
  checking : List (BatchJob N) → Feeder N
  offering : BatchJob N → List (BatchJob N) → Feeder N
  closed : Feeder N

-- A worker: receiving from `jobCh`, at `ctx.Err()` with a job, in `Collect`, or returned.
pub data Worker (N : Type 0) : Type 0 where
  idle : Worker N
  received : BatchJob N → Worker N
  collecting : BatchJob N → Worker N
  exited : Worker N

-- `results` is what `resultCh` holds, in the order sent. Its capacity is the number of jobs and each
-- job is sent one result, so a send does not wait.
pub record Pool (N : Type 0) : Type 0 where
  pub feeder : Feeder N
  pub workers : List (Worker N)
  pub results : List (BatchResult N)
  pub cancelled : Bool

-- The context is cancelled, the feeder runs, or the worker at a position does.
pub data Event : Type 0 where
  cancels : Event
  feeds : Event
  works : ℕ → Event

abbrev pub is_exited : {N : Type 0} → Worker N → Bool
is_exited exited = true
is_exited idle = false
is_exited (received job) = false
is_exited (collecting job) = false

module _ {N : Type 0} where
  unfoldable pub worker_at : ℕ → List (Worker N) → Option (Worker N)
  worker_at i [] = none
  worker_at zero (w ∷ ws) = some w
  worker_at (suc i) (w ∷ ws) = worker_at i ws

  unfoldable pub set_at : ℕ → Worker N → List (Worker N) → List (Worker N)
  set_at i w [] = []
  set_at zero w (v ∷ ws) = w ∷ ws
  set_at (suc i) w (v ∷ ws) = v ∷ set_at i w ws

  -- the limit, as `runBatch` bounds it
  unfoldable pub worker_limit : ℕ → List (BatchJob N) → ℕ
  worker_limit max_concurrency jobs =
      let limit = if ltb max_concurrency 1 then 1 else max_concurrency in
      if ltb (length jobs) limit then length jobs else limit

  unfoldable pub idle_workers : ℕ → List (Worker N)
  idle_workers zero = []
  idle_workers (suc n) = idle ∷ idle_workers n

  -- the batch with its goroutines started; `cancelled` is whether the context already is
  unfoldable pub start : ℕ → Bool → List (BatchJob N) → Pool N
  start limit cancelled jobs = record {
    feeder = checking jobs;
    workers = idle_workers limit;
    results = [];
    cancelled = cancelled;
  }

  unfoldable pub feed : Bool → Feeder N → Feeder N
  feed cancelled (checking []) = closed
  feed cancelled (checking (job ∷ rest)) = if cancelled then closed else offering job rest
  feed cancelled (offering job rest) = if cancelled then closed else offering job rest
  feed cancelled closed = closed

  -- a worker that receives: it gets the job on offer, or leaves its loop when `jobCh` is closed
  unfoldable pub receive : ℕ → Pool N → Feeder N → Pool N
  receive i pool (checking rest) = pool
  receive i pool (offering job rest) = record pool {
    feeder = checking rest;
    workers = set_at i (received job) pool.workers;
  }
  receive i pool closed = record pool { workers = set_at i exited pool.workers }

  -- one step of the loop of a worker
  unfoldable pub work : ℕ → Pool N → Option (Worker N) → Pool N
  unfolding receive
  work i pool none = pool
  work i pool (some idle) = receive i pool pool.feeder
  work i pool (some (received job)) =
      let next = if pool.cancelled then exited else collecting job in
      record pool { workers = set_at i next pool.workers }
  work i pool (some (collecting job)) = record pool {
    workers = set_at i idle pool.workers;
    results = pool.results ++ (perform job ∷ []);
  }
  work i pool (some exited) = pool

  unfoldable pub step : Event → Pool N → Pool N
  step cancels pool = record pool { cancelled = true }
  step feeds pool = record pool { feeder = feed pool.cancelled pool.feeder }
  step (works i) pool = work i pool (worker_at i pool.workers)

  unfoldable pub replay : List Event → Pool N → Pool N
  replay [] pool = pool
  replay (e ∷ events) pool = replay events (step e pool)

  -- `workers.Wait()` returns
  unfoldable pub is_finished : Pool N → Bool
  is_finished pool = all is_exited pool.workers

  unfoldable pub first_live : List (Worker N) → ℕ
  first_live [] = 0
  first_live (w ∷ ws) = if is_exited w then suc (first_live ws) else 0

  -- a goroutine that can run
  unfoldable pub next_in : Pool N → Feeder N → Event
  next_in pool (checking rest) = feeds
  next_in pool (offering job rest) = works (first_live pool.workers)
  next_in pool closed = works (first_live pool.workers)

  unfoldable pub next : Pool N → Event
  next pool = next_in pool pool.feeder

  -- how many steps are left
  unfoldable pub feeder_steps : Feeder N → ℕ
  feeder_steps (checking rest) = 4 * length rest + 1
  feeder_steps (offering job rest) = 4 * length rest + 4
  feeder_steps closed = 0

  abbrev pub one_steps : Worker N → ℕ
  one_steps idle = 1
  one_steps (received job) = 3
  one_steps (collecting job) = 2
  one_steps exited = 0

  unfoldable pub worker_steps : List (Worker N) → ℕ
  worker_steps [] = 0
  worker_steps (w ∷ ws) = one_steps w + worker_steps ws

  unfoldable pub steps_left : Pool N → ℕ
  steps_left pool = feeder_steps pool.feeder + worker_steps pool.workers

  -- the rest of the batch, when a schedule has said all that it says
  unfoldable pub drive : ℕ → Pool N → Pool N
  drive zero pool = pool
  drive (suc fuel) pool = drive fuel (step (next pool) pool)

  unfoldable pub run_to_end : List Event → Pool N → Pool N
  run_to_end events pool = let reached = replay events pool in drive (steps_left reached) reached

  abbrev pub by_index : BatchResult N → BatchResult N → Bool
  by_index a b = ltb a.index b.index

  -- what follows `workers.Wait()`; `ctx_err` is the message of `ctx.Err()`
  unfoldable pub gather : String → Pool N → Outcome (List (BatchResult N))
  gather ctx_err pool = if pool.cancelled then err ctx_err else ok (sort by_index pool.results)

  -- `runBatch` under a schedule. The second result is whether the context is cancelled by its end.
  unfoldable pub run_batch :
      ℕ → String → List Event → Bool → List (BatchJob N) → Outcome (List (BatchResult N)) × Bool
  run_batch max_concurrency ctx_err events cancelled [] = (ok [], cancelled)
  run_batch max_concurrency ctx_err events cancelled (job ∷ rest) =
      let limit = worker_limit max_concurrency (job ∷ rest) in
      let pool = run_to_end events (start limit cancelled (job ∷ rest)) in
      (gather ctx_err pool, pool.cancelled)
