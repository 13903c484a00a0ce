-- ===== src/Inspect/Service.antt =====
-- internal/app/inspect/service.go, `Service.Run`: from a target to a report and the history. What an
-- adapter opens, the parser of URLs and the clock are from outside.
pub mod Laws
use Prim.Native.String.{◌++◌}
use dbprobe.Base.{ℕ, String, Option, none, some, Bool, true, false, List, [], ◌∷◌, ◌==◌}
use dbprobe.Base.Outcome.{Outcome, ok, err, ◌>>=◌}
use dbprobe.Collection.{Collector}
use dbprobe.Collection.Planner.{Environment, run}
use dbprobe.Collection.Result.{Warning, Result}
use dbprobe.Inspect.History.{Report, TargetMetadata, SecurityProfile, persist_history}
use dbprobe.Inspect.Rules.{core_rules, compose_rules, run_rules}
use dbprobe.Registry.{Adapter, Registry, TargetSpec, resolve}
use dbprobe.Sdk.Capability.{CapabilitySet, list}
use dbprobe.Sdk.Clock.{Time, utc}
use dbprobe.Sdk.Finding.{Rule, AnalysisContext}
use dbprobe.Sdk.Number.{Float64}
use dbprobe.Temporal.Snapshot.{Hash, Snapshot}

-- what `Open` of an adapter returns
pub record Runtime (N : Type 0) : Type 0 where
  pub target : TargetMetadata
  pub capabilities : CapabilitySet
  pub collectors : List (Collector N)
  pub rules : List (Option (Rule N))
  pub security_profile : SecurityProfile

-- `url_scheme` is the scheme that `url.Parse` finds, if it succeeds; `quote` is `%q`; `open_target` is
-- `Open` of the adapter; `now` is `time.Now()` when the report is made.
pub record Outside (N : Type 0) : Type 0 where
  pub url_scheme : String → Option String
  pub quote : String → String
  pub open_target : Adapter → TargetSpec → Outcome (Runtime N)
  pub now : Time

abbrev pub schema_version : String
schema_version = "dbprobe.inspect/v1alpha1"

-- `err != nil || u.Scheme == ""`
unfoldable pub target_of : String → Option String → Outcome TargetSpec
target_of raw none = err "invalid target URL"
target_of raw (some scheme) = elim (scheme == "") [
  | true ↦ err "invalid target URL"
  | false ↦ ok (record { raw_url = raw; scheme = scheme })
]

abbrev pub matched : (String → String) → TargetSpec → Option Adapter → Outcome Adapter
matched quote spec none = err ("no adapter matches target scheme " ++ quote spec.scheme)
matched quote spec (some selected) = ok selected

-- the warning of the history, appended
abbrev pub with_warning : Option Warning → List Warning → List Warning
with_warning none warnings = warnings
with_warning (some warning) [] = warning ∷ []
with_warning (some warning) (w ∷ warnings) = w ∷ with_warning (some warning) warnings

module _ {N : Type 0} where
  unfoldable pub parse_target : Outside N → String → Outcome TargetSpec
  unfolding target_of
  parse_target outside raw = target_of raw (outside.url_scheme raw)

  abbrev pub analysis_of : CapabilitySet → Result N → AnalysisContext N
  analysis_of caps collected = record {
    capabilities = caps;
    current = collected.observations;
    previous = [];
    deltas = collected.deltas;
  }

  module _ ⦃f : Float64 N⦄ where
    unfoldable pub report_of : Outside N → Runtime N → Result N → Report N
    report_of outside runtime collected = record {
      schema_version = schema_version;
      collected_at = utc outside.now;
      target = runtime.target;
      capabilities = list runtime.capabilities;
      security = runtime.security_profile;
      observations = collected.observations;
      deltas = collected.deltas;
      findings =
          run_rules runtime.capabilities (analysis_of runtime.capabilities collected)
            (compose_rules core_rules runtime.rules);
      warnings = collected.warnings;
    }

    -- `Run` until its report is made, with the version of the adapter
    unfoldable pub inspect :
        Outside N → Environment N → Registry → String → ℕ → Outcome (Report N × String)
    unfolding parse_target report_of
    inspect outside p registry raw_target sample_window = do
      spec ← parse_target outside raw_target
      selected ← matched outside.quote spec (resolve registry spec)
      runtime ← outside.open_target selected spec
      collected ← run p runtime.capabilities runtime.collectors sample_window
      ok (report_of outside runtime collected, selected.metadata.version)

    module _ {S : Type 0} (hash : Hash) (save_to : S → Snapshot N → S × Outcome (Unit {0})) where
      -- what is done with the report
      unfoldable pub finish : Option S → Outcome (Report N × String) → Option S × Outcome (Report N)
      finish history (err message) = (history, err message)
      finish history (ok (report, version)) =
          let kept = persist_history hash save_to history report version in
          (kept.0, ok (record report { warnings = with_warning kept.1 report.warnings }))

      -- `Service.Run`
      unfoldable pub run_service :
          Outside N
          → Environment N
          → Registry
          → Option S
          → String
          → ℕ
          → Option S × Outcome (Report N)
      unfolding inspect finish
      run_service outside p registry history raw_target sample_window =
          finish history (inspect outside p registry raw_target sample_window)
