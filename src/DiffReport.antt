-- ===== src/DiffReport.antt =====
-- internal/app/diff/service.go: the report on the two newest snapshots of a target.
pub mod Laws
use dbprobe.Base.{String, Option, none, some, List, [], ◌∷◌, ◌==◌}
use dbprobe.Base.Outcome.{Outcome, ok, err, ◌>>=◌, ◌>>◌, fail_if}
use dbprobe.Sdk.Clock.{Time}
use dbprobe.Sdk.Number.{Float64}
use dbprobe.Temporal.Snapshot.{Snapshot}
use dbprobe.Temporal.Diff.{Change, Diff, compare}
use dbprobe.Temporal.Events.{Event, derive_events}
use dbprobe.Temporal.Regression.{
  MetricPair, QueryRegression, default_query_regression_policy, detect_query_regressions,
}

pub record DiffReport (N : Type 0) : Type 0 where
  pub schema_version : String
  pub target_fingerprint : String
  pub previous_snapshot_id : String
  pub current_snapshot_id : String
  pub previous_collected_at : Time
  pub current_collected_at : Time
  pub changes : List (Change N)
  pub query_regressions : List (QueryRegression N)
  pub events : List (Event N)

-- the methods of a `temporal.Store` that the service calls, on one state of it
pub record StoreReader (N : Type 0) : Type 0 where
  pub latest : String → Outcome (Snapshot N)
  pub previous : String → Time → Outcome (Snapshot N)

module _ {N : Type 0} ⦃f : Float64 N⦄ where
  unfoldable pub regressions_between :
      Option MetricPair → Snapshot N → Snapshot N → List (QueryRegression N)
  regressions_between none previous current = []
  regressions_between (some metrics) previous current =
      detect_query_regressions previous current metrics default_query_regression_policy

  -- from the comparison on
  unfoldable pub report_between :
      String → Option MetricPair → Snapshot N → Snapshot N → Outcome (DiffReport N)
  unfolding regressions_between
  report_between target metrics previous current = do
    diff ← compare previous current
    let regressions = regressions_between metrics previous current
    ok (record {
      schema_version = "dbprobe.diff/v1alpha1";
      target_fingerprint = target;
      previous_snapshot_id = previous.id;
      current_snapshot_id = current.id;
      previous_collected_at = previous.collected_at;
      current_collected_at = current.collected_at;
      changes = diff.changes;
      query_regressions = regressions;
      events = derive_events diff regressions previous.collected_at current.collected_at;
    })

  unfoldable pub run : Option (StoreReader N) → String → Option MetricPair → Outcome (DiffReport N)
  unfolding report_between
  run none target metrics = err "diff store is required"
  run (some store) target metrics = do
    fail_if (target == "") "target fingerprint is required"
    current ← store.latest target
    previous ← store.previous target current.collected_at
    report_between target metrics previous current
