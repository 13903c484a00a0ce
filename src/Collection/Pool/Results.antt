-- ===== src/Collection/Pool/Results.antt =====
-- How the steps of a worker, and so a whole schedule, keep the accounts of a batch.
use mathlib.Core.List.{Perm, perm_middle, map-append}
use mathlib.Core.List.Perm
use dbprobe.Base.{
  map, ℕ, zero, suc, ◌≡◌, refl, Option, none, some, Bool, true, false, List, [], ◌∷◌, ◌++◌,
  if◌then◌else◌,
}
use dbprobe.Base.Lists.{append_assoc}
use dbprobe.Collection.{BatchJob, perform}
use dbprobe.Collection.Pool.{
  Pool, Feeder, checking, offering, closed, Worker, idle, received, collecting, exited, Event,
  cancels, feeds, works, worker_at, set_at, start, receive, work, step, replay, next, drive,
  run_to_end, steps_left,
}
use dbprobe.Collection.Pool.Laws.{in_hand, in_hand-set_at, any-is_exited-set_at}
use dbprobe.Collection.Pool.Accounts.{
  Accounts, waiting, accounted_at, drained_at, start-Accounts, cancels-Accounts, feed-Accounts,
}

module _ {N : Type 0} where
  receive-Accounts :
      {jobs : List (BatchJob N)} (i : ℕ) (pool : Pool N) (f : Feeder N)
      → pool.feeder ≡ f
      → worker_at i pool.workers ≡ some idle
      → Accounts jobs pool
      → Accounts jobs (receive i pool f)
  unfolding receive
  receive-Accounts i pool (checking rest) fed at a = a
  receive-Accounts i pool (offering job rest) fed at a = record {
    done = a.done;
    dropped = a.dropped;
    performed = a.performed;
    accounted = Perm.trans (accounted_at pool (offering job rest) fed a) (
        Perm.append_left a.done (
          Perm.trans (perm_middle (in_hand pool.workers) (rest ++ a.dropped)) (
            Perm.append_right (rest ++ a.dropped)
              (Perm.symm (in_hand-set_at i idle (received job) pool.workers at)))));
    kept = a.kept;
    drained = λ h some_exited.
        drained_at pool (offering job rest) fed a h
          (any-is_exited-set_at i (received job) pool.workers refl some_exited);
  }
  receive-Accounts i pool closed fed at a = record {
    done = a.done;
    dropped = a.dropped;
    performed = a.performed;
    accounted = Perm.trans a.accounted (
        Perm.append_left a.done (
          Perm.append_right (waiting pool.feeder ++ a.dropped)
            (Perm.symm (in_hand-set_at i idle exited pool.workers at))));
    kept = a.kept;
    drained = λ h some_exited. rw fed refl;
  }

  check-Accounts :
      {jobs : List (BatchJob N)} (i : ℕ) (pool : Pool N) (job : BatchJob N) (c : Bool)
      → pool.cancelled ≡ c
      → worker_at i pool.workers ≡ some (received job)
      → Accounts jobs pool
      → Accounts jobs
          (record pool { workers = set_at i (if c then exited else collecting job) pool.workers })
  check-Accounts i pool job true over at a = record {
    done = a.done;
    dropped = job ∷ a.dropped;
    performed = a.performed;
    accounted = Perm.trans a.accounted (
        Perm.append_left a.done (
          Perm.trans
            (Perm.append_right (waiting pool.feeder ++ a.dropped)
              (Perm.symm (in_hand-set_at i (received job) exited pool.workers at)))
            (Perm.trans
              (Perm.symm (
                perm_middle (in_hand (set_at i exited pool.workers))
                  (waiting pool.feeder ++ a.dropped)))
              (Perm.append_left (in_hand (set_at i exited pool.workers))
                (Perm.symm (perm_middle (waiting pool.feeder) a.dropped))))));
    kept = λ h. cc;
    drained = λ h. cc;
  }
  check-Accounts i pool job false over at a = record {
    done = a.done;
    dropped = a.dropped;
    performed = a.performed;
    accounted = Perm.trans a.accounted (
        Perm.append_left a.done (
          Perm.append_right (waiting pool.feeder ++ a.dropped) (
            Perm.cons_inv
              (Perm.symm (in_hand-set_at i (received job) (collecting job) pool.workers at)))));
    kept = a.kept;
    drained = λ h some_exited.
        a.drained h (any-is_exited-set_at i (collecting job) pool.workers refl some_exited);
  }

  collect-Accounts :
      {jobs : List (BatchJob N)} (i : ℕ) (pool : Pool N) (job : BatchJob N)
      → worker_at i pool.workers ≡ some (collecting job)
      → Accounts jobs pool
      → Accounts jobs (work i pool (some (collecting job)))
  unfolding work
  collect-Accounts i pool job at a = record {
    done = a.done ++ (job ∷ []);
    dropped = a.dropped;
    performed = rw (a.performed, map-append perform a.done (job ∷ [])) refl;
    accounted = Perm.trans a.accounted (
        rw
          (append_assoc a.done (job ∷ [])
            (in_hand (set_at i idle pool.workers) ++ (waiting pool.feeder ++ a.dropped)))
          (Perm.append_left a.done (
            Perm.append_right (waiting pool.feeder ++ a.dropped)
              (Perm.symm (in_hand-set_at i (collecting job) idle pool.workers at)))));
    kept = a.kept;
    drained =
        λ h some_exited. a.drained h (any-is_exited-set_at i idle pool.workers refl some_exited);
  }

  work-Accounts :
      {jobs : List (BatchJob N)} (i : ℕ) (pool : Pool N) (o : Option (Worker N))
      → worker_at i pool.workers ≡ o
      → Accounts jobs pool
      → Accounts jobs (work i pool o)
  unfolding work
  work-Accounts i pool none at a = a
  work-Accounts i pool (some idle) at a = receive-Accounts i pool pool.feeder refl at a
  work-Accounts i pool (some (received job)) at a =
      check-Accounts i pool job pool.cancelled refl at a
  work-Accounts i pool (some (collecting job)) at a = collect-Accounts i pool job at a
  work-Accounts i pool (some exited) at a = a

  step-Accounts :
      {jobs : List (BatchJob N)} (e : Event) (pool : Pool N)
      → Accounts jobs pool
      → Accounts jobs (step e pool)
  unfolding step
  step-Accounts cancels pool a = cancels-Accounts pool a
  step-Accounts feeds pool a = feed-Accounts pool pool.cancelled pool.feeder refl refl a
  step-Accounts (works i) pool a = work-Accounts i pool _ refl a

  pub replay-Accounts :
      {jobs : List (BatchJob N)} (events : List Event) (pool : Pool N)
      → Accounts jobs pool
      → Accounts jobs (replay events pool)
  unfolding replay
  replay-Accounts [] pool a = a
  replay-Accounts (e ∷ events) pool a =
      replay-Accounts events (step e pool) (step-Accounts e pool a)

  drive-Accounts :
      {jobs : List (BatchJob N)} (fuel : ℕ) (pool : Pool N)
      → Accounts jobs pool
      → Accounts jobs (drive fuel pool)
  unfolding drive
  drive-Accounts zero pool a = a
  drive-Accounts (suc fuel) pool a =
      drive-Accounts fuel (step (next pool) pool) (step-Accounts (next pool) pool a)

  pub run_to_end-Accounts :
      (limit : ℕ) (events : List Event) (c : Bool) (jobs : List (BatchJob N))
      → Accounts jobs (run_to_end events (start limit c jobs))
  unfolding run_to_end
  run_to_end-Accounts limit events c jobs =
      drive-Accounts (steps_left (replay events (start limit c jobs)))
        (replay events (start limit c jobs))
        (replay-Accounts events (start limit c jobs) (start-Accounts limit c jobs))

  -- After any schedule, what has been collected are the answers of some of the jobs, and these are
  -- among the jobs as often as they are collected: no job is done twice.
  pub performed_once :
      (limit : ℕ) (events : List Event) (cancelled : Bool) (jobs : List (BatchJob N))
      → (done : List (BatchJob N)) × (rest : List (BatchJob N)) × ((replay events
            (start limit cancelled jobs)).results
          ≡ map perform done)
        × Perm jobs (done ++ rest)
  performed_once limit events cancelled jobs =
      let a =
        replay-Accounts events (start limit cancelled jobs) (start-Accounts limit cancelled jobs) in
      (a.done, _, a.performed, a.accounted)
