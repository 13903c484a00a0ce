-- ===== src/Collection/Pool/Schedule.antt =====
-- A batch always ends.
use dbprobe.Base.{
  ℕ, zero, suc, ◌≤◌, ◌<◌, ◌≡◌, refl, Option, none, some, Bool, true, false, List, [], ◌∷◌, arith,
  Bool-cases, inl, inr, ◌⊎◌,
}
use dbprobe.Base.Lists.{all}
use dbprobe.Collection.Pool.{
  Pool, Feeder, checking, offering, closed, Worker, idle, received, collecting, exited, Event,
  cancels, feeds, works, is_exited, worker_at, feed, receive, work, step, replay, is_finished,
  first_live, next_in, next, feeder_steps, steps_left, drive, run_to_end,
}
use dbprobe.Collection.Pool.Laws.{worker_steps-set_at}

module _ {N : Type 0} where
  first_live-at :
      (ws : List (Worker N))
      → all is_exited ws ≡ false
      → (w : Worker N) × (worker_at (first_live ws) ws ≡ some w) × (is_exited w ≡ false)
  unfolding first_live worker_at
  first_live-at [] h = cc
  first_live-at (w ∷ ws) h = elim (Bool-cases (is_exited w)) [
    | inl e ↦ rw e (first_live-at ws (ground arith))
    | inr e ↦ rw e (w, refl, e)
  ]

  -- `checking` is where a worker that receives has to wait.
  abbrev is_checking : Feeder N → Bool
  is_checking (checking rest) = true
  is_checking (offering job rest) = false
  is_checking closed = false

  receive_lt :
      (i : ℕ) (pool : Pool N) (f : Feeder N)
      → pool.feeder ≡ f
      → is_checking f ≡ false
      → worker_at i pool.workers ≡ some idle
      → steps_left (receive i pool f) < steps_left pool
  unfolding receive steps_left feeder_steps
  receive_lt i pool (checking rest) fed ready at = cc
  receive_lt i pool (offering job rest) fed ready at =
      rw fed (omega (arith, worker_steps-set_at i idle (received job) pool.workers at))
  receive_lt i pool closed fed ready at =
      rw fed (omega (arith, worker_steps-set_at i idle exited pool.workers at))

  work_lt :
      (i : ℕ) (pool : Pool N) (w : Worker N)
      → worker_at i pool.workers ≡ some w
      → is_exited w ≡ false
      → is_checking pool.feeder ≡ false
      → steps_left (work i pool (some w)) < steps_left pool
  unfolding work steps_left
  work_lt i pool idle at live ready = receive_lt i pool pool.feeder refl ready at
  work_lt i pool (received job) at live ready = ground (
    arith,
    worker_steps-set_at i (received job) exited pool.workers at,
    worker_steps-set_at i (received job) (collecting job) pool.workers at,
  )
  work_lt i pool (collecting job) at live ready =
      omega (arith, worker_steps-set_at i (collecting job) idle pool.workers at)
  work_lt i pool exited at live ready = cc

  works_lt :
      (pool : Pool N)
      → is_finished pool ≡ false
      → is_checking pool.feeder ≡ false
      → steps_left (step (works (first_live pool.workers)) pool) < steps_left pool
  unfolding step is_finished
  works_lt pool busy ready =
      let (w, at, live) = first_live-at pool.workers busy in
      rw at (work_lt (first_live pool.workers) pool w at live ready)

  next_in_lt :
      (pool : Pool N) (f : Feeder N)
      → pool.feeder ≡ f
      → is_finished pool ≡ false
      → steps_left (step (next_in pool f) pool) < steps_left pool
  unfolding next_in step steps_left feeder_steps feed
  next_in_lt pool (checking []) fed busy = rw fed (omega arith)
  next_in_lt pool (checking (job ∷ rest)) fed busy = rw fed (ground arith)
  next_in_lt pool (offering job rest) fed busy = works_lt pool busy (rw fed refl)
  next_in_lt pool closed fed busy = works_lt pool busy (rw fed refl)

  -- While a worker has not returned, some goroutine can run, and its step brings the end nearer: a
  -- batch does not deadlock.
  pub next_lt :
      (pool : Pool N)
      → is_finished pool ≡ false
      → steps_left (step (next pool) pool) < steps_left pool
  unfolding next
  next_lt pool busy = next_in_lt pool pool.feeder refl busy

  all-worker_at :
      (i : ℕ) (ws : List (Worker N)) (w : Worker N)
      → worker_at i ws ≡ some w
      → all is_exited ws ≡ true
      → is_exited w ≡ true
  unfolding worker_at
  all-worker_at i [] w at h = cc
  all-worker_at zero (u ∷ ws) w at h = let e : u ≡ w = cc in rw (← e) (ground arith)
  all-worker_at (suc i) (u ∷ ws) w at h = all-worker_at i ws w at (ground arith)

  work-is_finished :
      (i : ℕ) (pool : Pool N) (o : Option (Worker N))
      → worker_at i pool.workers ≡ o
      → is_finished pool ≡ true
      → is_finished (work i pool o) ≡ true
  unfolding work is_finished
  work-is_finished i pool none at h = h
  work-is_finished i pool (some idle) at h = let no = all-worker_at i pool.workers idle at h in cc
  work-is_finished i pool (some (received job)) at h =
      let no = all-worker_at i pool.workers (received job) at h in cc
  work-is_finished i pool (some (collecting job)) at h =
      let no = all-worker_at i pool.workers (collecting job) at h in cc
  work-is_finished i pool (some exited) at h = h

  step-is_finished :
      (e : Event) (pool : Pool N) → is_finished pool ≡ true → is_finished (step e pool) ≡ true
  unfolding step is_finished
  step-is_finished cancels pool h = h
  step-is_finished feeds pool h = h
  step-is_finished (works i) pool h = work-is_finished i pool _ refl h

  drive-is_finished :
      (fuel : ℕ) (pool : Pool N)
      → (steps_left pool ≤ fuel) ⊎ (is_finished pool ≡ true)
      → is_finished (drive fuel pool) ≡ true
  unfolding drive
  drive-is_finished zero pool h = ground (arith, next_lt pool)
  drive-is_finished (suc fuel) pool h =
      drive-is_finished fuel (step (next pool) pool) (elim (Bool-cases (is_finished pool)) [
        | inl e ↦ inr (step-is_finished (next pool) pool e)
        | inr e ↦ inl (ground (arith, next_lt pool e))
      ])

  -- Whatever a schedule has done to a pool, the steps that are left bring every worker to return:
  -- `workers.Wait()` returns.
  pub run_to_end-is_finished :
      (events : List Event) (pool : Pool N) → is_finished (run_to_end events pool) ≡ true
  unfolding run_to_end
  run_to_end-is_finished events pool =
      drive-is_finished (steps_left (replay events pool)) (replay events pool) (inl (omega arith))
