-- ===== src/Temporal/Events.antt =====
-- internal/core/temporal/events.go: what happened between two snapshots, bounded by their times.
pub mod Laws
use Prim.Native.String.{◌++◌}
use mathlib.Core.List
use dbprobe.Base.{
  String, Option, none, some, Bool, true, false, ◌||◌, List, [], ◌∷◌, ◌==◌, if◌then◌else◌,
}
use dbprobe.Base.Lists.{prepend}
use dbprobe.Base.Sort.{sort, less_by, less_on}
use dbprobe.Sdk.Clock.{Time, is_zero, utc, before}
use dbprobe.Sdk.Number.{Float64}
use dbprobe.Sdk.Signal.{Ref}
use dbprobe.Temporal.Diff.{Change, Diff, change_added, change_removed, change_reset}
use dbprobe.Temporal.Regression.{QueryRegression, object_identity}

abbrev pub event_signal_reset : String
event_signal_reset = "signal_reset"

abbrev pub event_object_appeared : String
event_object_appeared = "object_appeared"

abbrev pub event_object_disappeared : String
event_object_disappeared = "object_disappeared"

abbrev pub event_query_regression : String
event_query_regression = "query_regression"

pub record Event (N : Type 0) : Type 0 where
  pub type : String
  pub object : Ref
  pub signal_key : String
  pub summary : String
  pub confidence : N
  pub observed_after : Time
  pub observed_before : Time

-- the type and the summary of a change's event; a plain change has none
unfoldable pub event_of_change : {N : Type 0} → Change N → Option (String × String)
event_of_change change =
    if change.kind == change_reset
    then some (
      event_signal_reset,
      "Signal " ++ change.key ++ " reset for " ++ change.object.kind ++ ":" ++ change.object.id
          ++ ".",
    )
    else if change.kind == change_added
    then some (
      event_object_appeared,
      "Observed " ++ change.object.kind ++ ":" ++ change.object.id ++ " for signal " ++ change.key
          ++ ".",
    )
    else if change.kind == change_removed
    then some (
      event_object_disappeared,
      "No longer observed " ++ change.object.kind ++ ":" ++ change.object.id ++ " for signal "
          ++ change.key ++ ".",
    )
    else none

module _ {N : Type 0} ⦃f : Float64 N⦄ (after_at before_at : Time) where
  unfoldable pub change_event : Change N → Option (String × String) → Option (Event N)
  change_event change none = none
  change_event change (some (type, summary)) = some (record {
    type = type;
    object = change.object;
    signal_key = change.key;
    summary = summary;
    confidence = f.lit 75 2;
    observed_after = after_at;
    observed_before = before_at;
  })

  unfoldable pub change_events : List (Change N) → List (Event N)
  unfolding change_event event_of_change
  change_events [] = []
  change_events (change ∷ changes) =
      prepend (change_event change (event_of_change change)) (change_events changes)

  unfoldable pub regression_event : QueryRegression N → Event N
  regression_event regression = record {
    type = event_query_regression;
    object = regression.object;
    signal_key = "";
    summary =
        "Mean query latency increased from "
        ++ f.fixed 2 regression.previous_mean_latency_ms
        ++ "ms to "
        ++ f.fixed 2 regression.current_mean_latency_ms
        ++ "ms ("
        ++ f.fixed 2 regression.ratio
        ++ "x) in the sampled window.";
    confidence = f.lit 90 2;
    observed_after = after_at;
    observed_before = before_at;
  }

unfoldable pub event_less : {N : Type 0} → Event N → Event N → Bool
event_less =
    less_by (λ e. e.type) (less_by (λ e. object_identity e.object) (less_on (λ e. e.signal_key)))

unfoldable pub derive_events :
    {N : Type 0} ⦃f : Float64 N⦄ → Diff N → List (QueryRegression N) → Time → Time → List (Event N)
derive_events ⦃f⦄ diff regressions observed_after observed_before =
    if is_zero observed_after || is_zero observed_before || before observed_before observed_after
    then []
    else sort event_less (
        List.◌++◌ (change_events (utc observed_after) (utc observed_before) diff.changes)
          (List.map (regression_event (utc observed_after) (utc observed_before)) regressions))
