-- ===== src/Temporal/Regression/Laws.antt =====
-- What `DetectQueryRegressions` promises: each reported regression is one, and none is missed.
use mathlib.Core.List.{Mem, mem-cons_self, mem-cons_of_mem}
use mathlib.Core.List.Perm
use mathlib.Core.Path.{ap₂}
use dbprobe.Base.{
  String, Option, none, some, Bool, true, false, not, ◌||◌, List, [], ◌∷◌, ◌==◌, if◌then◌else◌, ◌≡◌,
  ◌≢◌, arith, eq_iff, Bool-cases, Option-cases, inl, inr, ◌∙◌,
}
use dbprobe.Base.GoMap.{GoMap, lookup, entries-lookup}
use dbprobe.Base.Lists.{All, prepend}
use dbprobe.Base.Sort.{sort-perm, All-sort}
use dbprobe.Sdk.Number.{Float64, whole}
use dbprobe.Temporal.Regression.{
  MetricPair, QueryRegressionPolicy, QueryRegression, MetricWindow, judge, judge_found, judge_all,
  regression_less, detect_query_regressions, sampled_metrics,
}
use dbprobe.Temporal.Regression.Windows.{
  samples_of, window_of, complete, lookup-sampled_metrics, sampled_metrics-Nodup,
}
use dbprobe.Temporal.Snapshot.{Snapshot}

All-unless {ℓ κ} :
    {A : Type ℓ} (P : A → Type κ) (b : Bool) (l : List A) → All P l → All P (if b then [] else l)
All-unless P true l h = tt
All-unless P false l h = h

mem-prepend {ℓ} : {A : Type ℓ} {a : A} (o : Option A) {l : List A} → Mem a l → Mem a (prepend o l)
mem-prepend none m = m
mem-prepend (some x) m = mem-cons_of_mem x m

-- the guard of `DetectQueryRegressions`
abbrev compared : {N : Type 0} → Snapshot N → Snapshot N → MetricPair → Bool
compared previous current metrics =
    (previous.target_fingerprint == "")
    || not (previous.target_fingerprint == current.target_fingerprint)
    || (metrics.calls_key == "")
    || (metrics.total_latency_key == "")

module _ {N : Type 0} ⦃f : Float64 N⦄ where
  abbrev pub mean : MetricWindow N → N
  mean w = f.div w.latency w.calls

  -- The policy's thresholds, each as a test that must not fail.
  pub record IsRegressed (policy : QueryRegressionPolicy N) (previous current : MetricWindow N)
      : Type 0 where
    pub current_calls : f.lt current.calls policy.minimum_current_calls ≡ false
    pub previous_calls : f.lt previous.calls policy.minimum_previous_calls ≡ false
    pub current_some : f.le current.calls (whole 0) ≡ false
    pub previous_some : f.le previous.calls (whole 0) ≡ false
    pub previous_mean : f.le (mean previous) (whole 0) ≡ false
    pub increase :
        f.lt (f.sub (mean current) (mean previous)) policy.minimum_absolute_increase_ms ≡ false
    pub ratio : f.lt (f.div (mean current) (mean previous)) policy.minimum_ratio ≡ false

  -- What is reported of a regressed pair of windows.
  abbrev pub report_of : MetricWindow N → MetricWindow N → QueryRegression N
  report_of previous current = record {
    object = current.ref;
    previous_mean_latency_ms = mean previous;
    current_mean_latency_ms = mean current;
    ratio = f.div (mean current) (mean previous);
    added_latency_ms = f.mul current.calls (f.sub (mean current) (mean previous));
    current_calls = current.calls;
  }

  module _ (policy : QueryRegressionPolicy N) where
    judge_sound :
        (p c : MetricWindow N) (r : QueryRegression N)
        → judge policy p c ≡ some r
        → IsRegressed policy p c × (r ≡ report_of p c)
    unfolding judge
    judge_sound p c r h = (
      record {
        current_calls = ground arith;
        previous_calls = ground arith;
        current_some = ground arith;
        previous_some = ground arith;
        previous_mean = ground arith;
        increase = ground arith;
        ratio = ground arith;
      },
      ground arith,
    )

    judge_complete :
        (p c : MetricWindow N) → IsRegressed policy p c → judge policy p c ≡ some (report_of p c)
    unfolding judge
    judge_complete p c i = ground arith

    module _ (metrics : MetricPair) (previous current : Snapshot N) where
      -- The complete window of an object in a snapshot.
      abbrev pub window_in : Snapshot N → String → Option (MetricWindow N)
      window_in s id = complete metrics (window_of metrics none (samples_of metrics id s.deltas))

      -- `r` reports an object that was sampled in both snapshots and whose windows regressed.
      abbrev pub IsFor : QueryRegression N → Type 0
      IsFor r =
          (id : String) × (p : MetricWindow N) × (c : MetricWindow N) × (window_in previous id
            ≡ some p)
          × (window_in current id ≡ some c)
          × IsRegressed policy p c
          × (r ≡ report_of p c)

      -- what the loop makes of one entry
      entry : String → MetricWindow N → Option (QueryRegression N)
      entry id c = judge_found policy (lookup (sampled_metrics previous.deltas metrics) id) c

      entry_sound :
          (id : String) (c : MetricWindow N) (r : QueryRegression N)
          → lookup (sampled_metrics current.deltas metrics) id ≡ some c
          → entry id c ≡ some r
          → IsFor r
      unfolding entry judge_found
      entry_sound id c r h k =
          elim (Option-cases (lookup (sampled_metrics previous.deltas metrics) id)) [
            | inl e ↦ absurd (ground (arith, e))
            | inr (p, e) ↦
                let (i, eq) = judge_sound p c r (ground (arith, e)) in
                (
                  id,
                  p,
                  c,
                  cc (lookup-sampled_metrics metrics previous.deltas id, e),
                  cc (lookup-sampled_metrics metrics current.deltas id, h),
                  i,
                  eq,
                )
          ]

      judge_all_sound :
          (entries : GoMap (MetricWindow N))
          → All (λ e. lookup (sampled_metrics current.deltas metrics) e.0 ≡ some e.1) entries
          → All IsFor (judge_all policy (sampled_metrics previous.deltas metrics) entries)
      unfolding judge_all entry
      judge_all_sound [] h = tt
      judge_all_sound ((id, c) ∷ entries) h = elim (Option-cases (entry id c)) [
        | inl e ↦ rw (e, prepend) (judge_all_sound entries h.1)
        | inr (r, e) ↦ rw (e, prepend) (entry_sound id c r h.0 e, judge_all_sound entries h.1)
      ]

      -- Every reported regression is about one object that was sampled in both snapshots, whose two
      -- windows pass every threshold of the policy, and reports the means of these windows.
      pub detect_sound : All IsFor (detect_query_regressions previous current metrics policy)
      unfolding detect_query_regressions
      detect_sound = All-unless IsFor _ _ (
          All-sort IsFor regression_less _ (
            judge_all_sound (sampled_metrics current.deltas metrics)
              (entries-lookup _ (sampled_metrics-Nodup metrics current.deltas))))

      judge_all_complete :
          (entries : GoMap (MetricWindow N)) (id : String) (c : MetricWindow N)
          {r : QueryRegression N}
          → lookup entries id ≡ some c
          → entry id c ≡ some r
          → Mem r (judge_all policy (sampled_metrics previous.deltas metrics) entries)
      unfolding judge_all entry lookup
      judge_all_complete [] id c h k = cc
      judge_all_complete ((j, d) ∷ entries) id c {r} h k = elim (Bool-cases (j == id)) [
        | inl e ↦
            let d_is_c : d ≡ c = ground arith in
            let same : entry j d ≡ some r = ap₂ entry ((eq_iff j id).0 e) d_is_c ∙ k in
            rw (same, prepend) mem-cons_self
        | inr e ↦ mem-prepend (entry j d) (judge_all_complete entries id c (ground arith) k)
      ]

      entry_complete :
          (id : String) (p c : MetricWindow N)
          → lookup (sampled_metrics previous.deltas metrics) id ≡ some p
          → IsRegressed policy p c
          → entry id c ≡ some (report_of p c)
      unfolding entry judge_found
      entry_complete id p c h i = ground (arith, judge_complete p c i)

      -- Between two snapshots of one named target, with both metrics named, an object whose two
      -- sampled windows pass every threshold of the policy is reported.
      pub detect_complete :
          (id : String) (p c : MetricWindow N)
          → previous.target_fingerprint ≢ ""
          → previous.target_fingerprint ≡ current.target_fingerprint
          → metrics.calls_key ≢ ""
          → metrics.total_latency_key ≢ ""
          → window_in previous id ≡ some p
          → window_in current id ≡ some c
          → IsRegressed policy p c
          → Mem (report_of p c) (detect_query_regressions previous current metrics policy)
      unfolding detect_query_regressions
      detect_complete id p c named same calls latency wp wc i =
          let open_ : compared previous current metrics ≡ false = ground (
            arith,
            eq_iff previous.target_fingerprint "",
            eq_iff previous.target_fingerprint current.target_fingerprint,
            eq_iff metrics.calls_key "",
            eq_iff metrics.total_latency_key "",
          ) in
          rw open_ (
            (Perm.mem_iff (sort-perm regression_less _)).1 (
              judge_all_complete (sampled_metrics current.deltas metrics) id c
                (lookup-sampled_metrics metrics current.deltas id ∙ wc)
                (entry_complete id p c (lookup-sampled_metrics metrics previous.deltas id ∙ wp) i)))
