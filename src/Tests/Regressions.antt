-- ===== src/Tests/Regressions.antt =====
-- A query that took 2 ms a call, and then 20 ms.
use mathlib.Core.List.{Mem}
use dbprobe.Base.{ℕ, some, List, true, ◌≡◌, refl, eq_iff, arith}
use dbprobe.Base.GoMap.{lookup}
use dbprobe.Base.Lists.{All}
use dbprobe.Sdk.Clock.{is_zero, before}
use dbprobe.Sdk.Number.{milli}
use dbprobe.Temporal.Diff.{Diff}
use dbprobe.Temporal.Regression.{
  QueryRegression, MetricWindow, detect_query_regressions, default_query_regression_policy,
  sampled_metrics, is_skipped, absorb, object_identity,
}
use dbprobe.Temporal.Regression.Sampled.{last_window, sampled_metrics-last_window}
use dbprobe.Temporal.Regression.Laws.{
  IsRegressed, IsFor, report_of, window_in, detect_sound, detect_complete,
}
use dbprobe.Temporal.Diff.Expected.{expected_changes}
use dbprobe.Temporal.Events.{derive_events}
use dbprobe.Temporal.Events.Laws.{IsDerived, derive_events-IsDerived}
use dbprobe.Tests.Data.{earlier, later, metrics, digest_ref, at}

abbrev window : ℕ → MetricWindow ℕ
window latency = record {
  ref = digest_ref;
  calls = 10000;
  latency = latency;
  has_calls = true;
  has_latency = true;
}

slower : IsRegressed default_query_regression_policy (window 20000) (window 200000)
unfolding default_query_regression_policy
slower = record {
  current_calls = refl;
  previous_calls = refl;
  current_some = refl;
  previous_some = refl;
  previous_mean = refl;
  increase = refl;
  ratio = refl;
}

abbrev regressions : List (QueryRegression ℕ)
regressions = detect_query_regressions earlier later metrics default_query_regression_policy

detect_sound_example : All (IsFor default_query_regression_policy metrics earlier later) regressions
detect_sound_example = detect_sound default_query_regression_policy metrics earlier later

earlier-window :
    window_in default_query_regression_policy metrics earlier later earlier "mysql.digest|d1"
    ≡ some (window 20000)
unfolding is_skipped absorb object_identity
earlier-window = refl

later-window :
    window_in default_query_regression_policy metrics earlier later later "mysql.digest|d1"
    ≡ some (window 200000)
unfolding is_skipped absorb object_identity
later-window = refl

detect_complete_example : Mem (report_of (window 20000) (window 200000)) regressions
detect_complete_example =
    detect_complete default_query_regression_policy metrics earlier later "mysql.digest|d1"
      (window 20000) (window 200000) (ground (arith, eq_iff "db1" "")) refl
      (ground (arith, eq_iff "calls" "")) (ground (arith, eq_iff "latency" "")) earlier-window
      later-window slower

sampled_metrics-last_window_example :
    lookup (sampled_metrics later.deltas metrics) "mysql.digest|d1"
    ≡ last_window metrics "mysql.digest|d1" later.deltas
sampled_metrics-last_window_example =
    sampled_metrics-last_window metrics later.deltas "mysql.digest|d1"

abbrev changes : Diff ℕ
changes = record {
  previous_snapshot_id = earlier.id;
  current_snapshot_id = later.id;
  changes = expected_changes earlier.observations later.observations;
}

derive_events-IsDerived_example :
    IsDerived changes regressions (at 1) (at 2) (derive_events changes regressions (at 1) (at 2))
unfolding is_zero before
derive_events-IsDerived_example =
    derive_events-IsDerived changes regressions (at 1) (at 2) refl refl refl
