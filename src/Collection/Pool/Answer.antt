-- ===== src/Collection/Pool/Answer.antt =====
-- What `runBatch` answers, whatever the schedule.
use mathlib.Core.List.{Perm, Mem, Pairwise, mem-cons, not-mem-nil}
use mathlib.Core.List.Perm
use mathlib.Core.Logic.Or
use native.Mathlib.Bridge.{le_prop}
use dbprobe.Base.{
  ℕ, zero, suc, ◌≤◌, ◌≡◌, refl, ap, ◌∙◌, sym, Option, none, some, Bool, true, false, ◌||◌, String,
  List, [], ◌∷◌, map, arith, Bool-cases, inl, inr, if◌then◌else◌,
}
use dbprobe.Base.Lists.{length, all, any, append-nil}
use dbprobe.Base.Outcome.{Outcome, ok, err}
use dbprobe.Base.Sort.{IsWeakOrder, IsSorted, NoTies, sort, sort-eq_of_IsSorted}
use dbprobe.Base.Text.{String_set}
use dbprobe.Collection.{BatchJob, BatchResult, Collector, perform, jobs_from, jobs}
use dbprobe.Collection.Pool.{
  Pool, Feeder, checking, offering, closed, Worker, idle, received, collecting, exited, worker_at,
  next_in, receive, Event, cancels, feeds, works, is_exited, is_finished, work, step, replay, next,
  drive, run_to_end, steps_left, by_index, gather, run_batch, worker_limit, start,
}
use dbprobe.Collection.Pool.Laws.{in_hand, held}
use dbprobe.Collection.Pool.Accounts.{Accounts, waiting, is_closed}
use dbprobe.Collection.Pool.Results.{run_to_end-Accounts}
use dbprobe.Collection.Pool.Bounds.{worker_limit-pos, length-start, length-run_to_end}
use dbprobe.Collection.Pool.Schedule.{run_to_end-is_finished}
use dbprobe.Sdk.Clock.{Time}

abbrev pub is_cancel : Event → Bool
is_cancel cancels = true
is_cancel feeds = false
is_cancel (works i) = false

module _ {N : Type 0} where
  by_index-IsWeakOrder : IsWeakOrder (by_index {N = N})
  by_index-IsWeakOrder = record {
    asym = λ a b h. ground arith;
    cotrans = λ a b c h k. ground arith;
  }

  -- the results of the jobs, one after the other
  abbrev pub results_from : ℕ → (ℕ → Time) → String → List (Collector N) → List (BatchResult N)
  results_from n now phase values = map perform (jobs_from n now phase values)

  index_le :
      (n : ℕ) (now : ℕ → Time) (phase : String) (values : List (Collector N)) (r : BatchResult N)
      → Mem r (results_from n now phase values)
      → n ≤ r.index
  unfolding jobs_from
  index_le n now phase [] r m = absurd (not-mem-nil m)
  index_le n now phase (v ∷ values) r m =
      Or.elim le_prop (mem-cons.0 m) (λ e. rw e (omega arith))
        (λ t. omega (arith, index_le (suc n) now phase values r t))

  results_from-IsSorted :
      (n : ℕ) (now : ℕ → Time) (phase : String) (values : List (Collector N))
      → IsSorted by_index (results_from n now phase values)
  unfolding jobs_from
  results_from-IsSorted n now phase [] = Pairwise.nil
  results_from-IsSorted n now phase (v ∷ values) =
      Pairwise.cons (λ r m. ground (arith, index_le (suc n) now phase values r m))
        (results_from-IsSorted (suc n) now phase values)

  module _ (N_set : IsSet N) where
    result-set : IsSet (BatchResult N)
    result-set = hlevel String_set

    results_from-NoTies :
        (n : ℕ) (now : ℕ → Time) (phase : String) (values : List (Collector N))
        → NoTies by_index (results_from n now phase values)
    unfolding jobs_from
    results_from-NoTies n now phase [] a b ma mb h k = absurd (not-mem-nil ma)
    results_from-NoTies n now phase (v ∷ values) a b ma mb h k =
        Or.elim (result-set a b) (mem-cons.0 ma)
          (λ ea.
            Or.elim (result-set a b) (mem-cons.0 mb) (λ eb. ea ∙ sym eb)
              (λ tb. let le = index_le (suc n) now phase values b tb in ground arith))
          (λ ta.
            Or.elim (result-set a b) (mem-cons.0 mb)
              (λ eb. let le = index_le (suc n) now phase values a ta in ground arith)
              (λ tb. results_from-NoTies (suc n) now phase values a b ta tb h k))

  held-exited : (w : Worker N) → is_exited w ≡ true → held w ≡ []
  held-exited idle h = cc
  held-exited (received job) h = cc
  held-exited (collecting job) h = cc
  held-exited exited h = refl

  in_hand-finished : (ws : List (Worker N)) → all is_exited ws ≡ true → in_hand ws ≡ []
  unfolding in_hand
  in_hand-finished [] h = refl
  in_hand-finished (w ∷ ws) h =
      rw (held-exited w (ground arith)) (in_hand-finished ws (ground arith))

  -- one worker is enough to have seen `jobCh` closed
  any-finished :
      (ws : List (Worker N)) → 1 ≤ length ws → all is_exited ws ≡ true → any is_exited ws ≡ true
  any-finished [] h k = absurd (omega arith)
  any-finished (w ∷ ws) h k = ground arith

  cancelled-receive :
      (i : ℕ) (pool : Pool N) (f : Feeder N) → (receive i pool f).cancelled ≡ pool.cancelled
  unfolding receive
  cancelled-receive i pool (checking rest) = refl
  cancelled-receive i pool (offering job rest) = refl
  cancelled-receive i pool closed = refl

  cancelled-work :
      (i : ℕ) (pool : Pool N) (o : Option (Worker N)) → (work i pool o).cancelled ≡ pool.cancelled
  unfolding work
  cancelled-work i pool none = refl
  cancelled-work i pool (some idle) = cancelled-receive i pool pool.feeder
  cancelled-work i pool (some (received job)) = refl
  cancelled-work i pool (some (collecting job)) = refl
  cancelled-work i pool (some exited) = refl

  cancelled-step :
      (e : Event) (pool : Pool N) → (step e pool).cancelled ≡ (is_cancel e || pool.cancelled)
  unfolding step
  cancelled-step cancels pool = refl
  cancelled-step feeds pool = refl
  cancelled-step (works i) pool = cancelled-work i pool (worker_at i pool.workers)

  cancelled-replay :
      (events : List Event) (pool : Pool N)
      → (replay events pool).cancelled ≡ (pool.cancelled || any is_cancel events)
  unfolding replay
  cancelled-replay [] pool = ground arith
  cancelled-replay (e ∷ events) pool =
      ground (arith, cancelled-replay events (step e pool), cancelled-step e pool)

  is_cancel-next : (pool : Pool N) (f : Feeder N) → is_cancel (next_in pool f) ≡ false
  unfolding next_in
  is_cancel-next pool (checking rest) = refl
  is_cancel-next pool (offering job rest) = refl
  is_cancel-next pool closed = refl

  cancelled-drive : (fuel : ℕ) (pool : Pool N) → (drive fuel pool).cancelled ≡ pool.cancelled
  unfolding drive next
  cancelled-drive zero pool = refl
  cancelled-drive (suc fuel) pool = ground (
    arith,
    cancelled-drive fuel (step (next pool) pool),
    cancelled-step (next pool) pool,
    is_cancel-next pool pool.feeder,
  )

  cancelled-run_to_end :
      (events : List Event) (pool : Pool N)
      → (run_to_end events pool).cancelled ≡ (pool.cancelled || any is_cancel events)
  unfolding run_to_end
  cancelled-run_to_end events pool =
      cancelled-drive (steps_left (replay events pool)) (replay events pool)
      ∙ cancelled-replay events pool

  waiting-closed : (f : Feeder N) → is_closed f ≡ true → waiting f ≡ []
  waiting-closed (checking rest) h = cc
  waiting-closed (offering job rest) h = cc
  waiting-closed closed h = refl

  -- A batch that has ended without being cancelled has done its jobs.
  done-perm :
      {jobs : List (BatchJob N)} (pool : Pool N) (a : Accounts jobs pool)
      → 1 ≤ length pool.workers
      → is_finished pool ≡ true
      → pool.cancelled ≡ false
      → Perm jobs a.done
  unfolding is_finished
  done-perm {jobs} pool a some_worker finished on =
      let shut =
        waiting-closed pool.feeder
          (a.drained on (any-finished pool.workers some_worker finished)) in
      let whole = a.accounted in
      rw (← append-nil a.done)
        (rw (in_hand-finished pool.workers finished, shut, a.kept on) at whole)

  gather_lem :
      (N_set : IsSet N) (ctx_err : String) (now : ℕ → Time) (phase : String)
      (values : List (Collector N)) (pool : Pool N)
      → Accounts (jobs now phase values) pool
      → 1 ≤ length pool.workers
      → is_finished pool ≡ true
      → gather ctx_err pool
        ≡ (if pool.cancelled then err ctx_err else ok (map perform (jobs now phase values)))
  unfolding gather
  gather_lem N_set ctx_err now phase values pool a some_worker finished =
      elim (Bool-cases pool.cancelled) [
        | inl e ↦ rw e refl
        | inr e ↦ rw e (
            ap ok (
              ap (sort by_index) a.performed
              ∙ sort-eq_of_IsSorted by_index by_index-IsWeakOrder
                  (results_from-NoTies N_set 0 now phase values)
                  (results_from-IsSorted 0 now phase values)
                  (Perm.map perform (done-perm pool a some_worker finished e))))
      ]

  -- `runBatch` without its goroutines: what the workers and the channels amount to.
  abbrev pub batch_of : String → Bool → List (BatchJob N) → Outcome (List (BatchResult N)) × Bool
  batch_of ctx_err cancelled [] = (ok [], cancelled)
  batch_of ctx_err cancelled (job ∷ rest) =
      (if cancelled then err ctx_err else ok (map perform (job ∷ rest)), cancelled)

  -- what `runBatch` leaves of the context
  abbrev pub cancelled_by : List Event → Bool → List (BatchJob N) → Bool
  cancelled_by events cancelled [] = cancelled
  cancelled_by events cancelled (job ∷ rest) = cancelled || any is_cancel events

  -- Whatever the schedule and the limit, a batch ends, and answers with the error of the context if
  -- that was cancelled before or by the schedule, and otherwise with what each job's `Collect`
  -- answers, once each and in the order of the jobs.
  pub run_batch-eq_batch_of :
      (N_set : IsSet N) (max_concurrency : ℕ) (ctx_err : String) (events : List Event)
      (cancelled : Bool) (now : ℕ → Time) (phase : String) (values : List (Collector N))
      → run_batch max_concurrency ctx_err events cancelled (jobs now phase values)
        ≡ batch_of ctx_err
            (cancelled_by events cancelled (jobs now phase values))
            (jobs now phase values)
  unfolding jobs_from run_batch start
  run_batch-eq_batch_of N_set max_concurrency ctx_err events cancelled now phase [] = refl
  run_batch-eq_batch_of N_set max_concurrency ctx_err events cancelled now phase (v ∷ values) =
      let todo = jobs now phase (v ∷ values) in
      let limit = worker_limit max_concurrency todo in
      let pool = run_to_end events (start limit cancelled todo) in
      let over : pool.cancelled ≡ (cancelled || any is_cancel events) =
        cancelled-run_to_end events (start limit cancelled todo) in
      let answer =
        gather_lem N_set ctx_err now phase (v ∷ values) pool
          (run_to_end-Accounts limit events cancelled todo)
          (rw
            (
              length-run_to_end events (start limit cancelled todo),
              length-start limit cancelled todo,
            )
            (worker_limit-pos max_concurrency _ _))
          (run_to_end-is_finished events (start limit cancelled todo)) in
      λ i. ((answer ∙ ap (λ c. if c then err ctx_err else ok (map perform todo)) over) i, over i)
