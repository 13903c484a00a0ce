-- ===== src/Collection/Pool/Accounts.antt =====
-- Where the jobs of a batch are: with the feeder, with a worker, done, or dropped because the context
-- is cancelled.
use mathlib.Core.List.{Perm}
use mathlib.Core.List.Perm
use dbprobe.Base.{ℕ, zero, suc, ◌≡◌, refl, Bool, true, false, List, [], ◌∷◌, ◌++◌, map}
use dbprobe.Base.Lists.{any, append-nil}
use dbprobe.Collection.{BatchJob, perform}
use dbprobe.Collection.Pool.{
  Pool, Feeder, checking, offering, closed, is_exited, idle_workers, start, feed,
}
use dbprobe.Collection.Pool.Laws.{in_hand}

any-idle_workers : (N : Type 0) (n : ℕ) → any is_exited (idle_workers {N = N} n) ≡ false
unfolding idle_workers
any-idle_workers N zero = refl
any-idle_workers N (suc n) = any-idle_workers N n

module _ {N : Type 0} where
  abbrev pub waiting : Feeder N → List (BatchJob N)
  waiting (checking rest) = rest
  waiting (offering job rest) = job ∷ rest
  waiting closed = []

  abbrev pub is_closed : Feeder N → Bool
  is_closed (checking rest) = false
  is_closed (offering job rest) = false
  is_closed closed = true

  -- `done` and `dropped` are the jobs that no state of a goroutine shows any more.
  pub record Accounts (jobs : List (BatchJob N)) (pool : Pool N) : Type 0 where
    pub done : List (BatchJob N)
    pub dropped : List (BatchJob N)
    pub performed : pool.results ≡ map perform done
    pub accounted : Perm jobs (done ++ (in_hand pool.workers ++ (waiting pool.feeder ++ dropped)))
    pub kept : pool.cancelled ≡ false → dropped ≡ []
    pub drained :
        pool.cancelled ≡ false → any is_exited pool.workers ≡ true → is_closed pool.feeder ≡ true

  in_hand-idle_workers : (n : ℕ) → in_hand (idle_workers {N = N} n) ≡ []
  unfolding in_hand idle_workers
  in_hand-idle_workers zero = refl
  in_hand-idle_workers (suc n) = in_hand-idle_workers n

  pub start-Accounts :
      (limit : ℕ) (c : Bool) (jobs : List (BatchJob N)) → Accounts jobs (start limit c jobs)
  unfolding start
  start-Accounts limit c jobs = record {
    done = [];
    dropped = [];
    performed = refl;
    accounted = rw (in_hand-idle_workers limit, append-nil jobs) (Perm.refl jobs);
    kept = λ h. refl;
    drained = λ h some_exited. let no = any-idle_workers N limit in cc;
  }

  pub cancels-Accounts :
      {jobs : List (BatchJob N)} (pool : Pool N)
      → Accounts jobs pool
      → Accounts jobs (record pool { cancelled = true })
  cancels-Accounts pool a = record {
    done = a.done;
    dropped = a.dropped;
    performed = a.performed;
    accounted = a.accounted;
    kept = λ h. cc;
    drained = λ h. cc;
  }

  -- what the accounts say at a feeder that is known
  module _ {jobs : List (BatchJob N)} (pool : Pool N) (f : Feeder N) (fed : pool.feeder ≡ f)
      (a : Accounts jobs pool) where
    pub accounted_at : Perm jobs (a.done ++ (in_hand pool.workers ++ (waiting f ++ a.dropped)))
    accounted_at = rw (← fed) a.accounted

    pub drained_at : pool.cancelled ≡ false → any is_exited pool.workers ≡ true → is_closed f ≡ true
    drained_at h some_exited = rw (← fed) (a.drained h some_exited)

  -- the feeder returns because the context is cancelled
  stop-Accounts :
      {jobs : List (BatchJob N)} (pool : Pool N) (f : Feeder N)
      → pool.feeder ≡ f
      → pool.cancelled ≡ true
      → Accounts jobs pool
      → Accounts jobs (record pool { feeder = closed })
  stop-Accounts pool f fed over a = record {
    done = a.done;
    dropped = waiting f ++ a.dropped;
    performed = a.performed;
    accounted = accounted_at pool f fed a;
    kept = λ h. cc;
    drained = λ h some_exited. refl;
  }

  -- the feeder goes on without a job leaving it
  keep-Accounts :
      {jobs : List (BatchJob N)} (pool : Pool N) (f g : Feeder N)
      → pool.feeder ≡ f
      → waiting f ≡ waiting g
      → (is_closed f ≡ true → is_closed g ≡ true)
      → Accounts jobs pool
      → Accounts jobs (record pool { feeder = g })
  keep-Accounts pool f g fed same ends a = record {
    done = a.done;
    dropped = a.dropped;
    performed = a.performed;
    accounted = rw (← same) (accounted_at pool f fed a);
    kept = a.kept;
    drained = λ h some_exited. ends (drained_at pool f fed a h some_exited);
  }

  pub feed-Accounts :
      {jobs : List (BatchJob N)} (pool : Pool N) (c : Bool) (f : Feeder N)
      → pool.cancelled ≡ c
      → pool.feeder ≡ f
      → Accounts jobs pool
      → Accounts jobs (record pool { feeder = feed c f })
  unfolding feed
  feed-Accounts pool c (checking []) over fed a = keep-Accounts pool _ closed fed refl (λ h. refl) a
  feed-Accounts pool true (checking (job ∷ rest)) over fed a = stop-Accounts pool _ fed over a
  feed-Accounts pool false (checking (job ∷ rest)) over fed a =
      keep-Accounts pool _ (offering job rest) fed refl (λ h. h) a
  feed-Accounts pool true (offering job rest) over fed a = stop-Accounts pool _ fed over a
  feed-Accounts pool false (offering job rest) over fed a =
      keep-Accounts pool _ (offering job rest) fed refl (λ h. h) a
  feed-Accounts pool c closed over fed a = keep-Accounts pool _ closed fed refl (λ h. h) a
