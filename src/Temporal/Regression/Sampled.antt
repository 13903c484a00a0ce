-- ===== src/Temporal/Regression/Sampled.antt =====
-- What `sampledMetrics` gives, from the deltas and without its map.
use dbprobe.Base.{
  String, Option, none, some, Bool, true, false, not, ◌&&◌, ◌||◌, List, [], ◌∷◌, ◌==◌,
  if◌then◌else◌, ◌≡◌, refl, arith, Bool-cases, inl, inr, ◌∙◌, ap, sym,
}
use dbprobe.Base.GoMap.{lookup}
use dbprobe.Sdk.Number.{Float64, whole}
use dbprobe.Sdk.Signal.{Ref, Delta, exactness_sampled}
use dbprobe.Temporal.Regression.{
  MetricPair, MetricWindow, object_identity, is_skipped, absorb, sampled_metrics,
}
use dbprobe.Temporal.Regression.Windows.{samples_of, window_of, complete, lookup-sampled_metrics}

-- the first of two that is there
abbrev pub or_else : {A : Type 0} → Option A → Option A → Option A
or_else (some x) other = some x
or_else none other = other

-- the last value that passes a test
abbrev pub last_of : {A : Type 0} → (A → Bool) → List A → Option A
last_of test [] = none
last_of test (x ∷ xs) = or_else (last_of test xs) (if test x then some x else none)

abbrev option_map : {A B : Type 0} → (A → B) → Option A → Option B
option_map g none = none
option_map g (some x) = some (g x)

or_else_assoc :
    {A B : Type 0} (g : A → B) (x y : Option A) (z : Option B)
    → or_else (option_map g (or_else x y)) z ≡ or_else (option_map g x) (or_else (option_map g y) z)
or_else_assoc g none y z = refl
or_else_assoc g (some x) y z = refl

or_else-none : {A : Type 0} (x : Option A) → or_else x none ≡ x
or_else-none none = refl
or_else-none (some x) = refl

module _ {N : Type 0} ⦃f : Float64 N⦄ (pair : MetricPair) where
  -- A delta that is a sample of a metric of the object `id`.
  abbrev pub is_sample : String → String → Delta N → Bool
  is_sample key id d =
      (d.exactness == exactness_sampled)
      && (d.key == key)
      && not (f.lt d.delta (whole 0))
      && (object_identity d.object == id)

  abbrev pub is_calls : String → Delta N → Bool
  is_calls = is_sample pair.calls_key

  -- One key for both metrics is the key of the calls.
  abbrev pub is_latency : String → Delta N → Bool
  is_latency id d = is_sample pair.total_latency_key id d && not (d.key == pair.calls_key)

  abbrev pub is_either : String → Delta N → Bool
  is_either id d = is_calls id d || is_latency id d

  -- The window of the last calls, the last latency and the last of either.
  abbrev pub window_from :
      Option (Delta N) → Option (Delta N) → Option (Delta N) → Option (MetricWindow N)
  window_from (some calls) (some latency) (some either) = some (record {
    ref = either.object;
    calls = calls.delta;
    latency = latency.delta;
    has_calls = true;
    has_latency = true;
  })
  window_from calls latency either = none

  abbrev pub last_window : String → List (Delta N) → Option (MetricWindow N)
  last_window id ds =
      window_from (last_of (is_calls id) ds) (last_of (is_latency id) ds)
        (last_of (is_either id) ds)

  abbrev calls_of : Option (MetricWindow N) → Option N
  calls_of none = none
  calls_of (some w) = if w.has_calls then some w.calls else none

  abbrev latency_of : Option (MetricWindow N) → Option N
  latency_of none = none
  latency_of (some w) = if w.has_latency then some w.latency else none

  abbrev ref_of : Option (MetricWindow N) → Option Ref
  ref_of none = none
  ref_of (some w) = some w.ref

  -- A part of the window, which only the samples that pass a test change.
  module _ {B : Type 0} (part : Option (MetricWindow N) → Option B) (g : Delta N → B) (id : String)
      (test : Delta N → Bool)
      (skips : (d : Delta N)
        → (not (is_skipped pair d) && (object_identity d.object == id)) ≡ false
        → test d ≡ false)
      (takes : (d : Delta N) (old : Option (MetricWindow N))
        → (not (is_skipped pair d) && (object_identity d.object == id)) ≡ true
        → part (some (absorb pair old d))
          ≡ or_else (option_map g (if test d then some d else none)) (part old)) where
    part-window_of :
        (ds : List (Delta N)) (old : Option (MetricWindow N))
        → part (window_of pair old (samples_of pair id ds))
          ≡ or_else (option_map g (last_of test ds)) (part old)
    part-window_of [] old = refl
    part-window_of (d ∷ ds) old =
        elim (Bool-cases (not (is_skipped pair d) && (object_identity d.object == id))) [
          | inl e ↦ rw e (
              part-window_of ds (some (absorb pair old d))
              ∙ ap (or_else (option_map g (last_of test ds))) (takes d old e)
              ∙ sym (or_else_assoc g (last_of test ds) _ (part old)))
          | inr e ↦ rw (e, skips d e, or_else-none) (part-window_of ds old)
        ]

  calls-absorb :
      (id : String) (d : Delta N) (old : Option (MetricWindow N))
      → (not (is_skipped pair d) && (object_identity d.object == id)) ≡ true
      → calls_of (some (absorb pair old d))
        ≡ or_else
            (option_map (λ x. x.delta) (if is_calls id d then some d else none))
            (calls_of old)
  unfolding is_skipped absorb
  calls-absorb id d none e = elim (Bool-cases (d.key == pair.calls_key)) [
    | inl k ↦ let t : is_calls id d ≡ true = ground arith in rw (t, k) refl
    | inr k ↦ let t : is_calls id d ≡ false = ground arith in rw (t, k) refl
  ]
  calls-absorb id d (some w) e = elim (Bool-cases (d.key == pair.calls_key)) [
    | inl k ↦ let t : is_calls id d ≡ true = ground arith in rw (t, k) refl
    | inr k ↦ let t : is_calls id d ≡ false = ground arith in rw (t, k) refl
  ]

  calls-window_of :
      (id : String) (ds : List (Delta N))
      → calls_of (window_of pair none (samples_of pair id ds))
        ≡ option_map (λ d. d.delta) (last_of (is_calls id) ds)
  unfolding is_skipped
  calls-window_of id ds =
      part-window_of calls_of (λ d. d.delta) id (is_calls id) (λ d e. ground arith)
        (calls-absorb id) ds none
      ∙ or_else-none _

  latency-absorb :
      (id : String) (d : Delta N) (old : Option (MetricWindow N))
      → (not (is_skipped pair d) && (object_identity d.object == id)) ≡ true
      → latency_of (some (absorb pair old d))
        ≡ or_else
            (option_map (λ x. x.delta) (if is_latency id d then some d else none))
            (latency_of old)
  unfolding is_skipped absorb
  latency-absorb id d none e = elim (Bool-cases (d.key == pair.calls_key)) [
    | inl k ↦ let t : is_latency id d ≡ false = ground arith in rw (t, k) refl
    | inr k ↦ let t : is_latency id d ≡ true = ground arith in rw (t, k) refl
  ]
  latency-absorb id d (some w) e = elim (Bool-cases (d.key == pair.calls_key)) [
    | inl k ↦ let t : is_latency id d ≡ false = ground arith in rw (t, k) refl
    | inr k ↦ let t : is_latency id d ≡ true = ground arith in rw (t, k) refl
  ]

  latency-window_of :
      (id : String) (ds : List (Delta N))
      → latency_of (window_of pair none (samples_of pair id ds))
        ≡ option_map (λ d. d.delta) (last_of (is_latency id) ds)
  unfolding is_skipped
  latency-window_of id ds =
      part-window_of latency_of (λ d. d.delta) id (is_latency id) (λ d e. ground arith)
        (latency-absorb id) ds none
      ∙ or_else-none _

  ref-absorb :
      (id : String) (d : Delta N) (old : Option (MetricWindow N))
      → (not (is_skipped pair d) && (object_identity d.object == id)) ≡ true
      → ref_of (some (absorb pair old d))
        ≡ or_else
            (option_map (λ x. x.object) (if is_either id d then some d else none))
            (ref_of old)
  unfolding is_skipped absorb
  ref-absorb id d none e = elim (Bool-cases (d.key == pair.calls_key)) [
    | inl k ↦ let t : is_either id d ≡ true = ground arith in rw (t, k) refl
    | inr k ↦ let t : is_either id d ≡ true = ground arith in rw (t, k) refl
  ]
  ref-absorb id d (some w) e = elim (Bool-cases (d.key == pair.calls_key)) [
    | inl k ↦ let t : is_either id d ≡ true = ground arith in rw (t, k) refl
    | inr k ↦ let t : is_either id d ≡ true = ground arith in rw (t, k) refl
  ]

  ref-window_of :
      (id : String) (ds : List (Delta N))
      → ref_of (window_of pair none (samples_of pair id ds))
        ≡ option_map (λ d. d.object) (last_of (is_either id) ds)
  unfolding is_skipped
  ref-window_of id ds =
      part-window_of ref_of (λ d. d.object) id (is_either id) (λ d e. ground arith) (ref-absorb id)
        ds none
      ∙ or_else-none _

  -- A complete window is made of its parts.
  abbrev from_parts : Option N → Option N → Option Ref → Option (MetricWindow N)
  from_parts (some calls) (some latency) (some ref) =
      some (record {
        ref = ref;
        calls = calls;
        latency = latency;
        has_calls = true;
        has_latency = true;
      })
  from_parts calls latency ref = none

  flagged-from_parts :
      (ref : Ref) (calls latency : N) (has_calls has_latency : Bool)
      → let o : Option (MetricWindow N) = some (record {
        ref = ref;
        calls = calls;
        latency = latency;
        has_calls = has_calls;
        has_latency = has_latency;
      }) in
        complete pair o ≡ from_parts (calls_of o) (latency_of o) (ref_of o)
  flagged-from_parts ref calls latency true true = refl
  flagged-from_parts ref calls latency true false = refl
  flagged-from_parts ref calls latency false has_latency = refl

  complete-from_parts :
      (o : Option (MetricWindow N))
      → complete pair o ≡ from_parts (calls_of o) (latency_of o) (ref_of o)
  complete-from_parts none = refl
  complete-from_parts (some w) =
      flagged-from_parts w.ref w.calls w.latency w.has_calls w.has_latency

  from_parts-window_from :
      (c l e : Option (Delta N))
      → from_parts
          (option_map (λ d. d.delta) c)
          (option_map (λ d. d.delta) l)
          (option_map (λ d. d.object) e)
        ≡ window_from c l e
  from_parts-window_from none l e = refl
  from_parts-window_from (some c) none e = refl
  from_parts-window_from (some c) (some l) none = refl
  from_parts-window_from (some c) (some l) (some e) = refl

  -- `sampledMetrics` has a window for an object exactly when there is a sample of each metric that is
  -- about it: a sampled delta under the metric's key, that is not negative. The window holds the last
  -- of the calls and the last of the latencies, and the object as the last of either names it. When one
  -- key is given for both metrics, it is the key of the calls.
  pub sampled_metrics-last_window :
      (ds : List (Delta N)) (id : String) → lookup (sampled_metrics ds pair) id ≡ last_window id ds
  sampled_metrics-last_window ds id =
      lookup-sampled_metrics pair ds id
      ∙ complete-from_parts _
      ∙ (λ i.
          from_parts (calls-window_of id ds i) (latency-window_of id ds i) (ref-window_of id ds i))
      ∙ from_parts-window_from (last_of (is_calls id) ds) (last_of (is_latency id) ds)
          (last_of (is_either id) ds)
