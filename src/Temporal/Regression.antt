-- ===== src/Temporal/Regression.antt =====
-- internal/core/temporal/query_regression.go: queries whose mean latency grew between the sampled
-- windows of two snapshots.
pub mod Windows
pub mod Sampled
pub mod Laws
use Prim.Native.String.{◌++◌}
use dbprobe.Base.{
  String, Option, none, some, Bool, true, false, not, ◌&&◌, ◌||◌, List, [], ◌∷◌, ◌==◌,
  if◌then◌else◌,
}
use dbprobe.Base.GoMap.{GoMap, lookup, insert}
use dbprobe.Base.Lists.{prepend}
use dbprobe.Base.Sort.{sort}
use dbprobe.Base.Text.{str_lt}
use dbprobe.Sdk.Number.{Float64, ge, whole}
use dbprobe.Sdk.Signal.{Ref, Delta, exactness_sampled}
use dbprobe.Temporal.Snapshot.{Snapshot}

pub record MetricPair : Type 0 where
  pub calls_key : String
  pub total_latency_key : String

pub record QueryRegressionPolicy (N : Type 0) : Type 0 where
  pub minimum_current_calls : N
  pub minimum_previous_calls : N
  pub minimum_absolute_increase_ms : N
  pub minimum_ratio : N

pub record QueryRegression (N : Type 0) : Type 0 where
  pub object : Ref
  pub previous_mean_latency_ms : N
  pub current_mean_latency_ms : N
  pub ratio : N
  pub added_latency_ms : N
  pub current_calls : N

pub record MetricWindow (N : Type 0) : Type 0 where
  pub ref : Ref
  pub calls : N
  pub latency : N
  pub has_calls : Bool
  pub has_latency : Bool

unfoldable pub object_identity : Ref → String
object_identity ref = ref.kind ++ "|" ++ ref.id

module _ {N : Type 0} ⦃f : Float64 N⦄ where
  unfoldable pub default_query_regression_policy : QueryRegressionPolicy N
  default_query_regression_policy = record {
    minimum_current_calls = whole 10;
    minimum_previous_calls = whole 5;
    minimum_absolute_increase_ms = whole 5;
    minimum_ratio = whole 2;
  }

  -- the zero value that a read of a missing key gives
  abbrev pub zero_window : MetricWindow N
  zero_window = record {
    ref = record { kind = ""; id = "" };
    calls = whole 0;
    latency = whole 0;
    has_calls = false;
    has_latency = false;
  }

  abbrev pub window_or_zero : Option (MetricWindow N) → MetricWindow N
  window_or_zero none = zero_window
  window_or_zero (some w) = w

  -- the `continue` of the first loop of `sampledMetrics`
  unfoldable pub is_skipped : MetricPair → Delta N → Bool
  is_skipped pair delta =
      not (delta.exactness == exactness_sampled)
      || (not (delta.key == pair.calls_key) && not (delta.key == pair.total_latency_key))
      || f.lt delta.delta (whole 0)

  unfoldable pub absorb : MetricPair → Option (MetricWindow N) → Delta N → MetricWindow N
  absorb pair old delta =
      let window = record (window_or_zero old) { ref = delta.object } in
      if delta.key == pair.calls_key
      then record window { calls = delta.delta; has_calls = true }
      else record window { latency = delta.delta; has_latency = true }

  unfoldable pub collect_windows :
      MetricPair → List (Delta N) → GoMap (MetricWindow N) → GoMap (MetricWindow N)
  unfolding is_skipped absorb
  collect_windows pair [] out = out
  collect_windows pair (delta ∷ deltas) out =
      let id = object_identity delta.object in
      collect_windows pair deltas
        (if is_skipped pair delta then out else insert id (absorb pair (lookup out id) delta) out)

  -- the loop that deletes incomplete windows
  unfoldable pub keep_complete : GoMap (MetricWindow N) → GoMap (MetricWindow N)
  keep_complete [] = []
  keep_complete ((id, window) ∷ out) =
      let rest = keep_complete out in
      if not window.has_calls || not window.has_latency then rest else (id, window) ∷ rest

  unfoldable pub sampled_metrics : List (Delta N) → MetricPair → GoMap (MetricWindow N)
  sampled_metrics deltas pair = keep_complete (collect_windows pair deltas [])

  -- the body of the loop of `DetectQueryRegressions`, for one object that both maps have
  unfoldable pub judge :
      QueryRegressionPolicy N → MetricWindow N → MetricWindow N → Option (QueryRegression N)
  judge policy previous current =
      if f.lt current.calls policy.minimum_current_calls
        || f.lt previous.calls policy.minimum_previous_calls
        || f.le current.calls (whole 0)
        || f.le previous.calls (whole 0)
      then none
      else let previous_mean = f.div previous.latency previous.calls in
        let current_mean = f.div current.latency current.calls in
        let increase = f.sub current_mean previous_mean in
        if f.le previous_mean (whole 0) || f.lt increase policy.minimum_absolute_increase_ms
        then none
        else let ratio = f.div current_mean previous_mean in
          if f.lt ratio policy.minimum_ratio
          then none
          else some (record {
            object = current.ref;
            previous_mean_latency_ms = previous_mean;
            current_mean_latency_ms = current_mean;
            ratio = ratio;
            added_latency_ms = f.mul current.calls increase;
            current_calls = current.calls;
          })

  -- an object that the previous map lacks is passed over
  unfoldable pub judge_found :
      QueryRegressionPolicy N
      → Option (MetricWindow N)
      → MetricWindow N
      → Option (QueryRegression N)
  unfolding judge
  judge_found policy none current = none
  judge_found policy (some previous) current = judge policy previous current

  unfoldable pub judge_all :
      QueryRegressionPolicy N
      → GoMap (MetricWindow N)
      → GoMap (MetricWindow N)
      → List (QueryRegression N)
  unfolding judge_found
  judge_all policy previous [] = []
  judge_all policy previous ((id, current) ∷ rest) =
      prepend (judge_found policy (lookup previous id) current) (judge_all policy previous rest)

  -- largest added latency first
  unfoldable pub regression_less : QueryRegression N → QueryRegression N → Bool
  regression_less a b =
      if f.eq a.added_latency_ms b.added_latency_ms
      then str_lt (object_identity a.object) (object_identity b.object)
      else f.lt b.added_latency_ms a.added_latency_ms

  -- `nil` and an empty slice are both the empty list.
  unfoldable pub detect_query_regressions :
      Snapshot N → Snapshot N → MetricPair → QueryRegressionPolicy N → List (QueryRegression N)
  detect_query_regressions previous current metrics policy =
      if (previous.target_fingerprint == "")
        || not (previous.target_fingerprint == current.target_fingerprint)
        || (metrics.calls_key == "")
        || (metrics.total_latency_key == "")
      then []
      else sort regression_less (
          judge_all policy (sampled_metrics previous.deltas metrics)
            (sampled_metrics current.deltas metrics))
