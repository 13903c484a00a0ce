-- ===== src/Collection/Samples/Laws.antt =====
-- What a run makes of the answers of the collectors.
use dbprobe.Base.{
  ◌≡◌, refl, ap, ◌∙◌, sym, String, Option, none, some, List, [], ◌∷◌, ◌++◌, ◌==◌, if◌then◌else◌,
  Bool-cases, inl, inr,
}
use dbprobe.Base.GoMap.{GoMap, lookup, insert, lookup-insert}
use dbprobe.Base.Lists.{prepend, prepend-append, append_assoc, append-nil}
use dbprobe.Base.Optional.{◌>>=◌, ◌>>◌, skip_if, collect}
use dbprobe.Collection.{BatchResult}
use dbprobe.Collection.Result.{Result, sample_key}
use dbprobe.Collection.Samples.{
  add_observed, add_snapshots, remember, add_first, sampled_delta, difference, compare_sample,
  compare_samples, add_second,
}
use dbprobe.Sdk.Number.{Float64}
use dbprobe.Sdk.Signal.{Observation, Delta, numeric}

module _ {N : Type 0} where
  -- all that a batch observed, in order
  abbrev pub observed_by : List (BatchResult N) → List (Observation N)
  observed_by [] = []
  observed_by (collected ∷ results) = collected.observed ++ observed_by results

  pub observations-add_snapshots :
      (results : List (BatchResult N)) (result : Result N)
      → (add_snapshots results result).observations ≡ result.observations ++ observed_by results
  unfolding add_snapshots
  observations-add_snapshots [] result = sym (append-nil result.observations)
  observations-add_snapshots (collected ∷ results) result =
      observations-add_snapshots results (add_observed collected result)
      ∙ append_assoc result.observations collected.observed (observed_by results)

  pub observations-add_first :
      (results : List (BatchResult N)) (result : Result N) (samples : GoMap (Observation N))
      → (add_first results result samples).0.observations ≡ result.observations
  unfolding add_first
  observations-add_first [] result samples = refl
  observations-add_first (collected ∷ results) result samples = observations-add_first results _ _

  pub deltas-add_snapshots :
      (results : List (BatchResult N)) (result : Result N)
      → (add_snapshots results result).deltas ≡ result.deltas
  unfolding add_snapshots
  deltas-add_snapshots [] result = refl
  deltas-add_snapshots (collected ∷ results) result =
      deltas-add_snapshots results (add_observed collected result)

  pub deltas-add_first :
      (results : List (BatchResult N)) (result : Result N) (samples : GoMap (Observation N))
      → (add_first results result samples).0.deltas ≡ result.deltas
  unfolding add_first
  deltas-add_first [] result samples = refl
  deltas-add_first (collected ∷ results) result samples = deltas-add_first results _ _

  -- the last observation of a sample that has the key, if there is one
  abbrev pub seen_as :
      String → String → List (Observation N) → Option (Observation N) → Option (Observation N)
  seen_as key id [] before = before
  seen_as key id (o ∷ observed) before =
      seen_as key id observed (if sample_key id o == key then some o else before)

  abbrev pub first_of :
      String → List (BatchResult N) → Option (Observation N) → Option (Observation N)
  first_of key [] before = before
  first_of key (collected ∷ results) before =
      first_of key results (seen_as key collected.descriptor.id collected.observed before)

  lookup-remember :
      (key id : String) (observed : List (Observation N)) (samples : GoMap (Observation N))
      → lookup (remember id observed samples) key ≡ seen_as key id observed (lookup samples key)
  unfolding remember
  lookup-remember key id [] samples = refl
  lookup-remember key id (o ∷ observed) samples =
      lookup-remember key id observed (insert (sample_key id o) o samples)
      ∙ ap (seen_as key id observed) (lookup-insert (sample_key id o) key o samples)

  -- What the run remembers of the first sample is the last observation of each key.
  pub lookup-add_first :
      (key : String) (results : List (BatchResult N)) (result : Result N)
      (samples : GoMap (Observation N))
      → lookup (add_first results result samples).1 key ≡ first_of key results (lookup samples key)
  unfolding add_first
  lookup-add_first key [] result samples = refl
  lookup-add_first key (collected ∷ results) result samples =
      lookup-add_first key results _ _
      ∙ ap (first_of key results)
          (lookup-remember key collected.descriptor.id collected.observed samples)

-- the second sample, at a window and after a first sample
module _ {N : Type 0} ⦃f : Float64 N⦄ (window : N) where
  -- the change that two values make, when both are numbers and the second is not the smaller one
  abbrev pub change_between : Observation N → Option N → Option N → Option (Delta N)
  change_between current first second =
      first >>= λ a. second >>= λ b. skip_if (f.lt b a) >> some (sampled_delta window current a b)

  observations-difference :
      (id : String) (current : Observation N) (a b : Option N) (result : Result N)
      → (difference window id current a b result).observations ≡ result.observations
  unfolding difference
  observations-difference id current (some a) (some b) result = elim (Bool-cases (f.lt b a)) [
    | inl e ↦ rw e refl
    | inr e ↦ rw e refl
  ]
  observations-difference id current (some a) none result = refl
  observations-difference id current none b result = refl

  deltas-difference :
      (id : String) (current : Observation N) (a b : Option N) (result : Result N)
      → (difference window id current a b result).deltas
        ≡ result.deltas ++ prepend (change_between current a b) []
  unfolding difference
  deltas-difference id current (some a) (some b) result = elim (Bool-cases (f.lt b a)) [
    | inl e ↦ rw e (sym (append-nil result.deltas))
    | inr e ↦ rw e refl
  ]
  deltas-difference id current (some a) none result = sym (append-nil result.deltas)
  deltas-difference id current none b result = sym (append-nil result.deltas)

  abbrev change_after : Option (Observation N) → Observation N → Option (Delta N)
  change_after before current =
      before >>= λ previous. change_between current (numeric previous) (numeric current)

  observations-compare_sample :
      (id : String) (current : Observation N) (before : Option (Observation N)) (result : Result N)
      → (compare_sample window id current before result).observations ≡ result.observations
  unfolding compare_sample
  observations-compare_sample id current none result = refl
  observations-compare_sample id current (some previous) result =
      observations-difference id current _ _ result

  deltas-compare_sample :
      (id : String) (current : Observation N) (before : Option (Observation N)) (result : Result N)
      → (compare_sample window id current before result).deltas
        ≡ result.deltas ++ prepend (change_after before current) []
  unfolding compare_sample
  deltas-compare_sample id current none result = sym (append-nil result.deltas)
  deltas-compare_sample id current (some previous) result = deltas-difference id current _ _ result

  observations-compare_samples :
      (samples : GoMap (Observation N)) (id : String) (observed : List (Observation N))
      (result : Result N)
      → (compare_samples window samples id observed result).observations ≡ result.observations
  unfolding compare_samples
  observations-compare_samples samples id [] result = refl
  observations-compare_samples samples id (current ∷ observed) result =
      observations-compare_samples samples id observed _
      ∙ observations-compare_sample id current _ result

  -- Every observation of the second sample is reported.
  pub observations-add_second :
      (samples : GoMap (Observation N)) (results : List (BatchResult N)) (result : Result N)
      → (add_second window samples results result).observations
        ≡ result.observations ++ observed_by results
  unfolding add_second
  observations-add_second samples [] result = sym (append-nil result.observations)
  observations-add_second samples (collected ∷ results) result =
      observations-add_second samples results _
      ∙ ap (λ l. l ++ observed_by results)
          (observations-compare_samples samples collected.descriptor.id collected.observed _)
      ∙ append_assoc result.observations collected.observed (observed_by results)

  module _ (firsts : List (BatchResult N)) where
    -- the change of a counter since the first sample
    abbrev pub change_since : String → Observation N → Option (Delta N)
    change_since id current = change_after (first_of (sample_key id current) firsts none) current

    abbrev pub changes_by : List (BatchResult N) → List (Delta N)
    changes_by [] = []
    changes_by (collected ∷ seconds) =
        collect (change_since collected.descriptor.id) collected.observed ++ changes_by seconds

    module _ (samples : GoMap (Observation N))
        (kept : (key : String) → lookup samples key ≡ first_of key firsts none) where
      deltas-compare_samples :
          (id : String) (observed : List (Observation N)) (result : Result N)
          → (compare_samples window samples id observed result).deltas
            ≡ result.deltas ++ collect (change_since id) observed
      unfolding compare_samples
      deltas-compare_samples id [] result = sym (append-nil result.deltas)
      deltas-compare_samples id (current ∷ observed) result =
          deltas-compare_samples id observed _
          ∙ ap (λ l. l ++ collect (change_since id) observed)
              (deltas-compare_sample id current _ result
                ∙ ap (λ o. result.deltas ++ prepend (change_after o current) [])
                    (kept (sample_key id current)))
          ∙ append_assoc result.deltas _ _
          ∙ ap (λ l. result.deltas ++ l) (sym (prepend-append (change_since id current) _))

      -- The deltas are the changes of the counters that both samples show as numbers, and that did
      -- not go down.
      pub deltas-add_second :
          (results : List (BatchResult N)) (result : Result N)
          → (add_second window samples results result).deltas ≡ result.deltas ++ changes_by results
      unfolding add_second
      deltas-add_second [] result = sym (append-nil result.deltas)
      deltas-add_second (collected ∷ results) result =
          deltas-add_second results _
          ∙ ap (λ l. l ++ changes_by results)
              (deltas-compare_samples collected.descriptor.id collected.observed _)
          ∙ append_assoc result.deltas _ (changes_by results)
