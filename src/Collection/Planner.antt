-- ===== src/Collection/Planner.antt =====
-- internal/core/collection/planner.go, `Planner.Run`: one batch for the snapshot collectors, and two
-- for the counters with a wait between them. What the run asks of the outside is a record: the
-- clock, the waiter, the schedule of each batch, and the message of `ctx.Err()`.
pub mod Laws
use dbprobe.Base.{
  ℕ, String, Option, none, some, Bool, true, false, List, [], ◌∷◌, ◌++◌, ◌==◌, if◌then◌else◌,
  nat_eq,
}
use dbprobe.Base.GoMap.{GoMap, lookup, insert}
use dbprobe.Base.Outcome.{Outcome, ok, err, ◌>>=◌, ◌>>◌, fail_if}
use dbprobe.Base.Sort.{sort, less_by, less_on}
use dbprobe.Collection.{
  Collector, BatchJob, BatchResult, jobs, strategy_snapshot, strategy_counter, phase_single,
  phase_sample_a, phase_sample_b,
}
use dbprobe.Collection.Pool.{Event, run_batch}
use dbprobe.Sdk.Capability.{CapabilitySet, has_all}
use dbprobe.Sdk.Clock.{Time}
use dbprobe.Sdk.Number.{Float64}
use dbprobe.Collection.Result.{Warning, Result}
use dbprobe.Collection.Samples.{add_snapshots, add_first, add_second, sort_result}
use dbprobe.Sdk.Signal.{Observation, Delta, numeric, exactness_sampled}

-- `cancelled` is whether the context is at the start; `seconds` is `Duration.Seconds`; `wait` gets whether the context is cancelled and the window, and
-- gives the error if there is one, and whether the context is cancelled afterwards.
pub record Environment (N : Type 0) : Type 0 where
  pub max_concurrency : ℕ
  pub now : String → ℕ → Time
  pub schedule : String → List Event
  pub ctx_err : String
  pub cancelled : Bool
  pub wait : Bool → ℕ → Option String × Bool
  pub seconds : ℕ → N

unfoldable pub with_max_concurrency : {N : Type 0} → Environment N → ℕ → Environment N
with_max_concurrency p value = record p { max_concurrency = if nat_eq value 0 then 1 else value }

pub record Plan (N : Type 0) : Type 0 where
  pub snapshots : List (Collector N)
  pub counters : List (Collector N)
  pub warnings : List Warning

abbrev pub unsupported : String → Warning
unsupported id = record { collector_id = id; reason = "unsupported collection strategy" }

-- what a run asks of the batches: the phase, whether the context is cancelled, and the jobs
abbrev pub Batches : Type 0 → Type 0
Batches N = String → Bool → List (BatchJob N) → Outcome (List (BatchResult N)) × Bool

abbrev pub failed_if : Option String → Outcome (Unit {0})
failed_if none = ok tt
failed_if (some message) = err message

module _ {N : Type 0} where
  -- the loop over the collectors
  unfoldable pub assign : CapabilitySet → List (Collector N) → Plan N → Plan N
  assign caps [] plan = plan
  assign caps (candidate ∷ collectors) plan =
      let descriptor = candidate.descriptor in
      assign caps collectors (
        if has_all caps descriptor.requires
        then if descriptor.strategy == strategy_snapshot
          then record plan { snapshots = plan.snapshots ++ (candidate ∷ []) }
          else if descriptor.strategy == strategy_counter
          then record plan { counters = plan.counters ++ (candidate ∷ []) }
          else record plan { warnings = plan.warnings ++ (unsupported descriptor.id ∷ []) }
        else plan)

  abbrev pub plan_of : CapabilitySet → List (Collector N) → Plan N
  plan_of caps collectors =
      assign caps collectors (record { snapshots = []; counters = []; warnings = [] })

  module _ ⦃f : Float64 N⦄ where
    -- the chain of errors over the counters, and what they give
    unfoldable pub combine :
        ℕ
        → N
        → Outcome (List (BatchResult N))
        → Option String
        → Outcome (List (BatchResult N))
        → Result N
        → Outcome (Result N)
    combine window window_seconds a waited b result =
        fail_if (nat_eq window 0) "sample window must be positive for counter collectors"
        >> (a >>= λ first.
            failed_if waited
            >> (b >>= λ second.
                let sampled = add_first first result [] in
                ok (sort_result (add_second window_seconds sampled.1 second sampled.0))))

    -- the rest of `Run`, from the counters, the state of the context and what the snapshots gave
    unfoldable pub run_counters :
        Environment N → Batches N → ℕ → List (Collector N) → Bool → Result N → Outcome (Result N)
    run_counters p batch window [] cancelled result = ok (sort_result result)
    run_counters p batch window (counter ∷ counters) cancelled result =
        let a =
          batch phase_sample_a cancelled
            (jobs (p.now phase_sample_a) phase_sample_a (counter ∷ counters)) in
        let waited = p.wait a.1 window in
        let b =
          batch phase_sample_b waited.1
            (jobs (p.now phase_sample_b) phase_sample_b (counter ∷ counters)) in
        combine window (p.seconds window) a.0 waited.0 b.0 result

    -- `Run` over any way to run a batch
    unfoldable pub run_over :
        Environment N → Batches N → CapabilitySet → List (Collector N) → ℕ → Outcome (Result N)
    run_over p batch caps collectors window =
        let plan = plan_of caps collectors in
        let single =
          batch phase_single p.cancelled (jobs (p.now phase_single) phase_single plan.snapshots) in
        single.0 >>= λ results. run_counters p batch window plan.counters single.1 (
          add_snapshots results
            (record { observations = []; deltas = []; warnings = plan.warnings }))

    abbrev pub batches : Environment N → Batches N
    batches p phase cancelled todo =
        run_batch p.max_concurrency p.ctx_err (p.schedule phase) cancelled todo

    -- `Run`
    unfoldable pub run : Environment N → CapabilitySet → List (Collector N) → ℕ → Outcome (Result N)
    run p = run_over p (batches p)
