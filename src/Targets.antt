-- ===== src/Targets.antt =====
-- internal/app/target/service.go, internal/app/diff/target_service.go and internal/app/explain: the
-- services that begin with the URL of a target.
pub mod Laws
use dbprobe.Base.{String, Option, none, some, Bool, true, false, not, ◌||◌, List, [], ◌∷◌, ◌==◌}
use dbprobe.Base.GoStrings.{trim_space}
use dbprobe.Base.Outcome.{Outcome, ok, err, ◌>>=◌, ◌>>◌, fail_if, wrap}
use dbprobe.DiffReport.{DiffReport, StoreReader, run}
use dbprobe.Explain.Statement.{ExplainRequest, ExplainResult}
use dbprobe.Inspect.History.{TargetMetadata}
use dbprobe.Inspect.Service.{Outside, Runtime, matched, parse_target}
use dbprobe.Registry.{Adapter, Registry, resolve}
use dbprobe.Sdk.Capability.{has}
use dbprobe.Sdk.Number.{Float64}
use dbprobe.Temporal.Regression.{MetricPair}

abbrev pub explain_schema_version : String
explain_schema_version = "dbprobe.explain/v1alpha1"

-- the report of an explanation
pub record PlanReport : Type 0 where
  pub schema_version : String
  pub target : TargetMetadata
  pub format : String
  pub estimated : Bool
  pub sanitized : Bool
  pub plan : String

-- `if err := runtime.Close(); err != nil`
abbrev pub close_error : Option String → Outcome (Unit {0})
close_error none = ok tt
close_error (some message) = err message

-- `explainer, ok := runtime.(adapter.PlanExplainer)`
abbrev pub explainer_of :
    Option (ExplainRequest → Outcome ExplainResult)
    → Outcome (ExplainRequest → Outcome ExplainResult)
explainer_of none = err "adapter violates query.explain contract"
explainer_of (some explainer) = ok explainer

-- the metrics of a target, by the resolver of the metrics, nil or not
abbrev pub pair_for :
    Option (TargetMetadata → Option MetricPair) → TargetMetadata → Option MetricPair
pair_for none target = none
pair_for (some metrics) target = metrics target

module _ {N : Type 0} where
  -- the runtime of a target
  unfoldable pub open_runtime : Outside N → Registry → String → Outcome (Runtime N)
  open_runtime outside registry raw_target = do
    spec ← parse_target outside raw_target
    selected ← matched outside.quote spec (resolve registry spec)
    outside.open_target selected spec

  -- `Service.Resolve` of the targets; `closing` is the error of `Close`
  unfoldable pub resolve_target :
      Outside N → (Runtime N → Option String) → Option Registry → String → Outcome TargetMetadata
  unfolding open_runtime
  resolve_target outside closing none raw_target = err "target adapter registry is required"
  resolve_target outside closing (some registry) raw_target = do
    runtime ← open_runtime outside registry raw_target
    let target = runtime.target
    wrap "close target runtime: " (close_error (closing runtime))
    fail_if ((target.engine == "") || (target.adapter_id == "") || (target.fingerprint == ""))
        "adapter returned incomplete target metadata"
    ok target

  -- `TargetService.Run`, by the resolver of its targets and its store
  unfoldable pub diff_target :
      ⦃f : Float64 N⦄
      → (String → Outcome TargetMetadata)
      → Option (StoreReader N)
      → Option (TargetMetadata → Option MetricPair)
      → String
      → Outcome (DiffReport N)
  diff_target targets store metrics raw_target = do
    target ← targets raw_target
    run store target.fingerprint (pair_for metrics target)

  -- `Service.Run` of the explanations; `explaining` is the method `ExplainPlan` of a runtime that has it
  unfoldable pub explain_target :
      Outside N
      → (Runtime N → Option (ExplainRequest → Outcome ExplainResult))
      → Option Registry
      → String
      → String
      → Outcome PlanReport
  unfolding open_runtime
  explain_target outside explaining none raw_target statement =
      err "explain adapter registry is required"
  explain_target outside explaining (some registry) raw_target statement = do
    runtime ← open_runtime outside registry raw_target
    fail_if (not (has runtime.capabilities "query.explain"))
        "target does not expose query.explain capability"
    explainer ← explainer_of (explaining runtime)
    result ← explainer (record { statement = statement })
    fail_if ((result.engine == "") || not (result.engine == runtime.target.engine))
        "adapter returned an invalid explain engine"
    fail_if
        ((trim_space result.format == "")
          || (trim_space result.plan == "")
          || not result.estimated
          || not result.sanitized)
        "adapter returned an invalid safe plan-only explain result"
    ok (record {
      schema_version = explain_schema_version;
      target = runtime.target;
      format = result.format;
      estimated = result.estimated;
      sanitized = result.sanitized;
      plan = result.plan;
    })
