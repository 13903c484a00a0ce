-- ===== src/Collection/Planner/Laws.antt =====
-- What a run of the planner gives, whatever the schedule of its goroutines.
use dbprobe.Base.{
  ℕ, ◌≡◌, ◌≢◌, refl, ap, ◌∙◌, sym, String, none, Bool, false, List, [], ◌∷◌, ◌++◌, map, arith,
  nat_eq,
}
use dbprobe.Base.GoMap.{lookup}
use dbprobe.Base.Lists.{any, append-nil}
use dbprobe.Base.Outcome.{Outcome, ok, ◌>>=◌}
use dbprobe.Base.Sort.{sort, less_on}
use dbprobe.Collection.{
  Collector, BatchResult, perform, jobs, jobs_from, phase_single, phase_sample_a, phase_sample_b,
}
use dbprobe.Collection.Planner.{
  Environment, Batches, plan_of, combine, run_counters, run_over, batches, run,
}
use dbprobe.Collection.Pool.Answer.{batch_of, cancelled_by, is_cancel, run_batch-eq_batch_of}
use dbprobe.Collection.Result.{Result, identity, delta_key}
use dbprobe.Collection.Samples.{add_snapshots, add_first, add_second, sort_result}
use dbprobe.Collection.Samples.Laws.{
  observed_by, changes_by, observations-add_snapshots, observations-add_first, deltas-add_snapshots,
  deltas-add_first, lookup-add_first, observations-add_second, deltas-add_second,
}
use dbprobe.Sdk.Capability.{CapabilitySet}
use dbprobe.Sdk.Number.{Float64}

module _ {N : Type 0} where
  -- The batches without their goroutines.
  abbrev pub in_turn : Environment N → Batches N
  in_turn p phase cancelled todo =
      batch_of p.ctx_err (cancelled_by (p.schedule phase) cancelled todo) todo

  -- the answers of the collectors in a phase, in turn
  abbrev pub answers : Environment N → String → List (Collector N) → List (BatchResult N)
  answers p phase collectors = map perform (jobs (p.now phase) phase collectors)

  module _ ⦃f : Float64 N⦄ (N_set : IsSet N) (p : Environment N) (caps : CapabilitySet)
      (collectors : List (Collector N)) (window : ℕ) where
    batches_lem :
        (phase : String) (cancelled : Bool) (some_of : List (Collector N))
        → batches p phase cancelled (jobs (p.now phase) phase some_of)
          ≡ in_turn p phase cancelled (jobs (p.now phase) phase some_of)
    batches_lem phase cancelled some_of =
        run_batch-eq_batch_of N_set p.max_concurrency p.ctx_err (p.schedule phase) cancelled
          (p.now phase) phase some_of

    run_counters-in_turn :
        (counters : List (Collector N)) (cancelled : Bool) (result : Result N)
        → run_counters p (batches p) window counters cancelled result
          ≡ run_counters p (in_turn p) window counters cancelled result
    unfolding run_counters
    run_counters-in_turn [] cancelled result = refl
    run_counters-in_turn (c ∷ counters) cancelled result =
        rw
          (batches_lem phase_sample_a _ (c ∷ counters), batches_lem phase_sample_b _ (c ∷ counters))
          refl

    -- A run over the goroutines is a run that asks the collectors one after the other: neither the
    -- limit nor the schedule shows in what it answers, but for when the context was cancelled.
    pub run-in_turn : run p caps collectors window ≡ run_over p (in_turn p) caps collectors window
    unfolding run run_over
    run-in_turn =
        let plan = plan_of caps collectors in
        let single = batches_lem phase_single p.cancelled plan.snapshots in
        λ i. (single i).0 >>= λ results.
        run_counters-in_turn plan.counters (single i).1
          (add_snapshots results
            (record { observations = []; deltas = []; warnings = plan.warnings }))
          i

  module _ (p : Environment N) where
    -- The context is not cancelled, neither at the start nor by a schedule or during the wait, and
    -- the wait ends well.
    pub record IsLive (window : ℕ) : Type 0 where
      pub live : p.cancelled ≡ false
      pub steps : (phase : String) → any is_cancel (p.schedule phase) ≡ false
      pub waits : p.wait false window ≡ (none, false)

    in_turn-live :
        {window : ℕ} (phase : String) (some_of : List (Collector N))
        → IsLive window
        → in_turn p phase false (jobs (p.now phase) phase some_of)
          ≡ (ok (answers p phase some_of), false)
    unfolding jobs_from
    in_turn-live phase [] h = refl
    in_turn-live phase (c ∷ some_of) h = rw (h.steps phase) refl

  module _ ⦃f : Float64 N⦄ (p : Environment N) (window : ℕ) where
    -- what a run reports of the second sample
    abbrev pub Reports :
        List (BatchResult N)
        → List (BatchResult N)
        → List (BatchResult N)
        → Outcome (Result N)
        → Type 0
    Reports singles firsts seconds outcome =
        (result : Result N) × (outcome ≡ ok result)
        × (result.observations
            ≡ sort (less_on identity) (observed_by singles ++ observed_by seconds))
        × (result.deltas ≡ sort (less_on delta_key) (changes_by (p.seconds window) firsts seconds))

    combine_lem :
        (firsts seconds : List (BatchResult N)) (result : Result N)
        → window ≢ 0
        → combine window (p.seconds window) (ok firsts) none (ok seconds) result ≡ (
            let sampled = add_first firsts result [] in
            ok (sort_result (add_second (p.seconds window) sampled.1 seconds sampled.0)))
    unfolding combine
    combine_lem firsts seconds result pos =
        let positive : nat_eq window 0 ≡ false = ground arith in rw positive refl

    run_counters-combine :
        (batch : Batches N) (c : Collector N) (counters : List (Collector N)) (result : Result N)
        (firsts seconds : List (BatchResult N))
        → batch phase_sample_a false (jobs (p.now phase_sample_a) phase_sample_a (c ∷ counters))
          ≡ (ok firsts, false)
        → p.wait false window ≡ (none, false)
        → batch phase_sample_b false (jobs (p.now phase_sample_b) phase_sample_b (c ∷ counters))
          ≡ (ok seconds, false)
        → run_counters p batch window (c ∷ counters) false result
          ≡ combine window (p.seconds window) (ok firsts) none (ok seconds) result
    unfolding run_counters
    run_counters-combine batch c counters result firsts seconds a w b = rw a (rw w (rw b refl))

    counters-Reports :
        (singles : List (BatchResult N)) (counters : List (Collector N)) (result : Result N)
        → IsLive p window
        → window ≢ 0
        → result.observations ≡ observed_by singles
        → result.deltas ≡ []
        → Reports singles
            (answers p phase_sample_a counters)
            (answers p phase_sample_b counters)
            (run_counters p (in_turn p) window counters false result)
    unfolding run_counters sort_result jobs_from lookup
    counters-Reports singles [] result h pos seen none_yet = (
      sort_result result,
      refl,
      ap (sort (less_on identity)) (seen ∙ sym (append-nil (observed_by singles))),
      ap (sort (less_on delta_key)) none_yet,
    )
    counters-Reports singles (c ∷ counters) result h pos seen none_yet =
        let firsts = answers p phase_sample_a (c ∷ counters) in
        let seconds = answers p phase_sample_b (c ∷ counters) in
        let sampled = add_first firsts result [] in
        let whole = add_second (p.seconds window) sampled.1 seconds sampled.0 in
        (
          sort_result whole,
          run_counters-combine (in_turn p) c counters result firsts seconds
                (in_turn-live p phase_sample_a (c ∷ counters) h) h.waits
                (in_turn-live p phase_sample_b (c ∷ counters) h)
              ∙ combine_lem firsts seconds result pos,
          ap (sort (less_on identity)) (
              observations-add_second (p.seconds window) sampled.1 seconds sampled.0
              ∙ ap (λ l. l ++ observed_by seconds)
                  (observations-add_first firsts result [] ∙ seen)),
          ap (sort (less_on delta_key)) (
              deltas-add_second (p.seconds window) firsts sampled.1
                (λ key. lookup-add_first key firsts result []) seconds sampled.0
              ∙ ap (λ l. l ++ changes_by (p.seconds window) firsts seconds)
                  (deltas-add_first firsts result [] ∙ none_yet)),
        )

    -- A run that is not cancelled, whose wait ends well and whose window is positive succeeds, for every
    -- limit and every schedule. It reports the observations of the snapshot collectors and of the
    -- second sample of the counters, and the changes between the samples, both sorted.
    pub run-Reports :
        IsSet N
        → (caps : CapabilitySet) (collectors : List (Collector N)) → IsLive p window
        → window ≢ 0
        → Reports
            (answers p phase_single (plan_of caps collectors).snapshots)
            (answers p phase_sample_a (plan_of caps collectors).counters)
            (answers p phase_sample_b (plan_of caps collectors).counters)
            (run p caps collectors window)
    unfolding run_over run_counters
    run-Reports N_set caps collectors h pos =
        let plan = plan_of caps collectors in
        let singles = answers p phase_single plan.snapshots in
        let begun : Result N = record {
          observations = [];
          deltas = [];
          warnings = plan.warnings;
        } in
        rw (run-in_turn N_set p caps collectors window, h.live)
          (rw (in_turn-live p phase_single plan.snapshots h) (
            counters-Reports singles plan.counters (add_snapshots singles begun) h pos
              (observations-add_snapshots singles begun) (deltas-add_snapshots singles begun)))
