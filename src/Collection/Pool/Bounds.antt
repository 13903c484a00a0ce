-- ===== src/Collection/Pool/Bounds.antt =====
-- How many jobs a batch has in hand at once.
use Prim.Native.Nat.{max}
use dbprobe.Base.{ℕ, zero, suc, ◌≤◌, ◌≡◌, refl, Option, none, some, Bool, List, [], ◌∷◌, ◌∙◌, arith}
use dbprobe.Base.Lists.{length, length-append}
use dbprobe.Collection.{BatchJob}
use dbprobe.Collection.Pool.{
  Pool, Feeder, checking, offering, closed, Worker, idle, received, collecting, exited, Event,
  cancels, feeds, works, worker_at, worker_limit, idle_workers, start, receive, work, step, replay,
  next, steps_left, drive, run_to_end,
}
use dbprobe.Collection.Pool.Laws.{in_hand, held, length-set_at}

length-idle_workers : (N : Type 0) (n : ℕ) → length (idle_workers {N = N} n) ≡ n
unfolding idle_workers
length-idle_workers N zero = refl
length-idle_workers N (suc n) = omega (arith, length-idle_workers N n)

module _ {N : Type 0} where
  worker_limit_le :
      (max_concurrency : ℕ) (jobs : List (BatchJob N))
      → (worker_limit max_concurrency jobs ≤ max max_concurrency 1)
        × (worker_limit max_concurrency jobs ≤ length jobs)
  unfolding worker_limit
  worker_limit_le max_concurrency jobs = (ground arith, ground arith)

  pub worker_limit-pos :
      (max_concurrency : ℕ) (job : BatchJob N) (rest : List (BatchJob N))
      → 1 ≤ worker_limit max_concurrency (job ∷ rest)
  unfolding worker_limit
  worker_limit-pos max_concurrency job rest = ground arith

  length-held : (w : Worker N) → length (held w) ≤ 1
  length-held idle = omega arith
  length-held (received job) = omega arith
  length-held (collecting job) = omega arith
  length-held exited = omega arith

  length-in_hand : (ws : List (Worker N)) → length (in_hand ws) ≤ length ws
  unfolding in_hand
  length-in_hand [] = omega arith
  length-in_hand (w ∷ ws) =
      omega (arith, length-in_hand ws, length-held w, length-append (held w) (in_hand ws))

  length-receive :
      (i : ℕ) (pool : Pool N) (f : Feeder N)
      → length (receive i pool f).workers ≡ length pool.workers
  unfolding receive
  length-receive i pool (checking rest) = refl
  length-receive i pool (offering job rest) = length-set_at i _ pool.workers
  length-receive i pool closed = length-set_at i _ pool.workers

  length-work :
      (i : ℕ) (pool : Pool N) (o : Option (Worker N))
      → length (work i pool o).workers ≡ length pool.workers
  unfolding work
  length-work i pool none = refl
  length-work i pool (some idle) = length-receive i pool pool.feeder
  length-work i pool (some (received job)) = length-set_at i _ pool.workers
  length-work i pool (some (collecting job)) = length-set_at i _ pool.workers
  length-work i pool (some exited) = refl

  length-step : (e : Event) (pool : Pool N) → length (step e pool).workers ≡ length pool.workers
  unfolding step
  length-step cancels pool = refl
  length-step feeds pool = refl
  length-step (works i) pool = length-work i pool (worker_at i pool.workers)

  pub length-replay :
      (events : List Event) (pool : Pool N)
      → length (replay events pool).workers ≡ length pool.workers
  unfolding replay
  length-replay [] pool = refl
  length-replay (e ∷ events) pool = length-replay events (step e pool) ∙ length-step e pool

  length-drive : (fuel : ℕ) (pool : Pool N) → length (drive fuel pool).workers ≡ length pool.workers
  unfolding drive
  length-drive zero pool = refl
  length-drive (suc fuel) pool =
      length-drive fuel (step (next pool) pool) ∙ length-step (next pool) pool

  pub length-run_to_end :
      (events : List Event) (pool : Pool N)
      → length (run_to_end events pool).workers ≡ length pool.workers
  unfolding run_to_end
  length-run_to_end events pool =
      length-drive (steps_left (replay events pool)) (replay events pool)
      ∙ length-replay events pool

  pub length-start :
      (limit : ℕ) (c : Bool) (jobs : List (BatchJob N))
      → length (start limit c jobs).workers ≡ limit
  unfolding start
  length-start limit c jobs = length-idle_workers N limit

  -- After any schedule, the workers of a batch are at most as many as its jobs, and as
  -- `max_concurrency` when that is at least 1; if that is 0, there is at most one. A worker has at most
  -- one job in hand, so the same bounds hold for the jobs that are in hand.
  pub in_hand-bounded :
      (max_concurrency : ℕ) (events : List Event) (cancelled : Bool) (jobs : List (BatchJob N))
      → (length (replay events (start (worker_limit max_concurrency jobs) cancelled jobs)).workers
          ≤ length jobs)
        × (length (replay events (start (worker_limit max_concurrency jobs) cancelled jobs)).workers
            ≤ max max_concurrency 1)
        × (length (
              in_hand
                (replay events (start (worker_limit max_concurrency jobs) cancelled jobs)).workers)
            ≤ length
                (replay events (start (worker_limit max_concurrency jobs) cancelled jobs)).workers)
  in_hand-bounded max_concurrency events cancelled jobs =
      let limit = worker_limit max_concurrency jobs in
      let few = length-in_hand (replay events (start limit cancelled jobs)).workers in
      let same = length-replay events (start limit cancelled jobs) in
      let all_of = length-start limit cancelled jobs in
      let bound = worker_limit_le max_concurrency jobs in (omega arith, omega arith, few)
