-- ===== src/Collection/Samples.antt =====
-- internal/core/collection/planner.go, `Planner.Run`: what is made of the answers of the collectors,
-- at one moment or at two.
pub mod Laws
use dbprobe.Base.{String, Option, none, some, Bool, List, [], ◌∷◌, ◌++◌, if◌then◌else◌}
use dbprobe.Base.GoMap.{GoMap, lookup, insert}
use dbprobe.Base.Sort.{sort, less_by, less_on}
use dbprobe.Collection.{BatchResult}
use dbprobe.Collection.Result.{Warning, Result, identity, delta_key, sample_key, reset_warning}
use dbprobe.Sdk.Number.{Float64}
use dbprobe.Sdk.Signal.{Observation, Delta, numeric, exactness_sampled}

-- the warning of a collector's error, appended
abbrev pub warn : String → Option String → List Warning → List Warning
warn id none warnings = warnings
warn id (some message) warnings = warnings ++ (record { collector_id = id; reason = message } ∷ [])

abbrev pub warning_less : Warning → Warning → Bool
warning_less = less_by (λ w. w.collector_id) (less_on (λ w. w.reason))

module _ {N : Type 0} where
  -- what a batch result adds whatever the phase, but in the first sample
  abbrev pub add_observed : BatchResult N → Result N → Result N
  add_observed collected result = record result {
    observations = result.observations ++ collected.observed;
    warnings = warn collected.descriptor.id collected.err result.warnings;
  }

  -- the loop over the snapshot results
  unfoldable pub add_snapshots : List (BatchResult N) → Result N → Result N
  add_snapshots [] result = result
  add_snapshots (collected ∷ results) result = add_snapshots results (add_observed collected result)

  unfoldable pub remember :
      String → List (Observation N) → GoMap (Observation N) → GoMap (Observation N)
  remember id [] samples = samples
  remember id (observation ∷ observed) samples =
      remember id observed (insert (sample_key id observation) observation samples)

  -- the loops over the first sample, which keep the samples and the errors
  unfoldable pub add_first :
      List (BatchResult N) → Result N → GoMap (Observation N) → Result N × GoMap (Observation N)
  add_first [] result samples = (result, samples)
  add_first (collected ∷ results) result samples =
      add_first results
        (record result { warnings = warn collected.descriptor.id collected.err result.warnings })
        (remember collected.descriptor.id collected.observed samples)

  module _ ⦃f : Float64 N⦄ (window : N) where
    abbrev pub sampled_delta : Observation N → N → N → Delta N
    sampled_delta current a b = record {
      key = current.key;
      object = current.object;
      unit = current.unit;
      delta = f.sub b a;
      rate_per_second = f.div (f.sub b a) window;
      window_seconds = window;
      exactness = exactness_sampled;
    }

    -- two values of a counter, if both are numbers
    unfoldable pub difference : String → Observation N → Option N → Option N → Result N → Result N
    difference id current (some a) (some b) result =
        if f.lt b a
        then record result { warnings = result.warnings ++ (reset_warning id current ∷ []) }
        else record result { deltas = result.deltas ++ (sampled_delta current a b ∷ []) }
    difference id current (some a) none result = result
    difference id current none second result = result

    unfoldable pub compare_sample :
        String → Observation N → Option (Observation N) → Result N → Result N
    unfolding difference
    compare_sample id current none result = result
    compare_sample id current (some previous) result =
        difference id current (numeric previous) (numeric current) result

    unfoldable pub compare_samples :
        GoMap (Observation N) → String → List (Observation N) → Result N → Result N
    unfolding compare_sample
    compare_samples samples id [] result = result
    compare_samples samples id (current ∷ observed) result =
        compare_samples samples id observed
          (compare_sample id current (lookup samples (sample_key id current)) result)

    -- the loop over the second sample
    unfoldable pub add_second : GoMap (Observation N) → List (BatchResult N) → Result N → Result N
    add_second samples [] result = result
    add_second samples (collected ∷ results) result = add_second samples results (
        compare_samples samples collected.descriptor.id collected.observed
          (add_observed collected result))

  unfoldable pub sort_result : Result N → Result N
  sort_result result = record {
    observations = sort (less_on identity) result.observations;
    deltas = sort (less_on delta_key) result.deltas;
    warnings = sort warning_less result.warnings;
  }
