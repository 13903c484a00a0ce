-- ===== src/Tests/Targets.antt =====
-- The services on targets, with two snapshots kept and a plan with a condition.

use dbprobe.Base.{String, ℕ, none, some, true, [], ◌∷◌, ◌≡◌, ◌⊎◌, refl}
use dbprobe.Base.GoStrings.{byte_len, trim_space, trim_left, trim_right}
use dbprobe.Base.GoMap.{insert}
use dbprobe.Base.Outcome.{ok, err}
use dbprobe.Baseline.Memory.{held_for}
use dbprobe.DiffReport.Laws.{Reported, memory_reader}
use dbprobe.Explain.Statement.{explain_with_executor}
use dbprobe.Inspect.History.{TargetMetadata}
use dbprobe.Inspect.Service.{Runtime, Outside, target_of, parse_target}
use dbprobe.Registry.{resolve}
use dbprobe.Sdk.Capability.{new, has, add_all}
use dbprobe.Sdk.Number.{milli}
use dbprobe.Targets.{
  PlanReport, open_runtime, resolve_target, diff_target, explain_target, explain_schema_version,
}
use dbprobe.Targets.Laws.{diff_target-Reported, explain_target-IsExplained, IsExplained}
use dbprobe.Tests.Data.{hash, at}
use dbprobe.Tests.Explain.{codec, database, explained_run}
use dbprobe.Tests.Service.{runtime, outside, mysql_only}
use dbprobe.Tests.Store.{two_saved, two_saved-IsValid}

abbrev explaining_runtime : Runtime ℕ
explaining_runtime = record {
  target = runtime.target;
  capabilities = new ("query.explain" ∷ []);
  collectors = [];
  rules = [];
  security_profile = runtime.security_profile;
}

abbrev explaining : Outside ℕ
explaining = record {
  url_scheme = λ raw. some "mysql";
  quote = λ text. text;
  open_target = λ selected spec. ok explaining_runtime;
  now = at 9;
}

abbrev plan_report : PlanReport
plan_report = record {
  schema_version = explain_schema_version;
  target = runtime.target;
  format = "mysql-json-sanitized";
  estimated = true;
  sanitized = true;
  plan = "{}";
}

opened : open_runtime explaining mysql_only "mysql://db1" ≡ ok explaining_runtime
unfolding open_runtime parse_target target_of resolve
opened = refl

plan_shown :
    explain_target explaining
      (λ r. some (explain_with_executor codec database))
      (some mysql_only)
      "mysql://db1"
      " select 1 "
    ≡ ok plan_report
unfolding explain_target has new add_all trim_space trim_left trim_right insert byte_len
plan_shown = rw (opened, explained_run) refl

explain_target-IsExplained_example :
    IsExplained explaining mysql_only "mysql://db1" codec (λ r. database) plan_report
explain_target-IsExplained_example =
    explain_target-IsExplained explaining mysql_only "mysql://db1" codec (λ r. database)
      " select 1 " plan_report plan_shown

diff_target-Reported_example :
    ((message : String) × (resolve_target outside (λ r. none) (some mysql_only) "mysql://db1"
        ≡ err message)
      × (diff_target
            (resolve_target outside (λ r. none) (some mysql_only))
            (some (memory_reader hash two_saved))
            none
            "mysql://db1"
          ≡ err message))
    ⊎ ((target : TargetMetadata) × (resolve_target outside
            (λ r. none)
            (some mysql_only)
            "mysql://db1"
          ≡ ok target)
        × Reported (held_for two_saved target.fingerprint) (
            diff_target
              (resolve_target outside (λ r. none) (some mysql_only))
              (some (memory_reader hash two_saved))
              none
              "mysql://db1"))
diff_target-Reported_example =
    diff_target-Reported outside mysql_only "mysql://db1" hash two_saved two_saved-IsValid
      (λ r. none) none
