-- ===== src/Findings/Engine.antt =====
-- adapters/mysql/findings/risk_rules.go, query_time.go: the rules on the deltas of the storage
-- engine, of tables that are scanned, and of the time that queries take.
use Prim.Native.String.{◌++◌}
use dbprobe.Base.{Option, some, not, List, [], ◌∷◌, ◌==◌, ◌||◌}
use dbprobe.Base.GoMap.{lookup}
use dbprobe.Base.Optional.{◌>>=◌, ◌>>◌, skip_if, collect}
use dbprobe.Findings.{severity_at, severity_from}
use dbprobe.Findings.Groups.{DeltaGroup, group_key, group_deltas, sorted_delta_groups, first_number}
use dbprobe.Sdk.Finding.{Finding, Rule}
use dbprobe.Sdk.Number.{Float64, whole}
use dbprobe.Sdk.Signal.{Observation, Delta, exactness_sampled}

module _ {N : Type 0} ⦃f : Float64 N⦄ where
  unfoldable pub redo_pressure : DeltaGroup N → Option (Finding N)
  unfolding severity_from
  redo_pressure group = do
    waits ← lookup group.values "mysql.innodb.log_waits"
    skip_if (f.lt waits (whole 1))
    some (record {
      id = "mysql.redo_pressure";
      title = "InnoDB redo/log waits occurred";
      severity = severity_from waits (whole 5);
      object = group.ref;
      evidence = [];
      summary = f.fixed 0 waits ++ " InnoDB log waits occurred in the sampled window.";
      guidance =
          "Correlate log waits with write throughput, transaction size, log buffer/redo capacity, fsync latency, and checkpoint pressure before changing configuration.";
      confidence = f.lit 90 2;
    })

  abbrev pub redo_pressure_rule : Rule N
  redo_pressure_rule = record {
    id = "mysql.redo_pressure";
    requires = "mysql.innodb" ∷ "mysql.performance_schema" ∷ [];
    evaluate = λ ctx. collect redo_pressure (sorted_delta_groups ctx.deltas);
  }

  unfoldable pub deadlock_rate : DeltaGroup N → Option (Finding N)
  unfolding severity_from
  deadlock_rate group = do
    deadlocks ← lookup group.values "mysql.innodb.deadlocks"
    skip_if (f.lt deadlocks (whole 3))
    some (record {
      id = "mysql.deadlock_rate_high";
      title = "InnoDB deadlock activity is elevated";
      severity = severity_from deadlocks (whole 10);
      object = group.ref;
      evidence = [];
      summary = f.fixed 0 deadlocks ++ " InnoDB deadlocks occurred in the sampled window.";
      guidance =
          "Inspect transaction ordering, lock scope, indexes, and retry behavior using application/server diagnostics; do not disable deadlock detection as a remediation shortcut.";
      confidence = f.lit 92 2;
    })

  abbrev pub deadlock_rate_rule : Rule N
  deadlock_rate_rule = record {
    id = "mysql.deadlock_rate_high";
    requires = "mysql.innodb" ∷ "mysql.performance_schema" ∷ [];
    evaluate = λ ctx. collect deadlock_rate (sorted_delta_groups ctx.deltas);
  }

  unfoldable pub full_scan_heavy_table : List (Observation N) → DeltaGroup N → Option (Finding N)
  unfolding severity_from
  full_scan_heavy_table current group = do
    full_scan_reads ← lookup group.values "mysql.table.full_scan_rows"
    skip_if (f.lt full_scan_reads (whole 100000))
    estimate ← first_number current "mysql.table.estimated_rows" (some group.ref)
    skip_if (f.lt estimate.1 (whole 1000))
    some (record {
      id = "mysql.full_scan_heavy_table";
      title = "Large table has heavy no-index read activity";
      severity = severity_from full_scan_reads (whole 1000000);
      object = group.ref;
      evidence = estimate.0 ∷ [];
      summary =
          "Approximately "
          ++ f.fixed 0 full_scan_reads
          ++ " rows were read without an index in the sampled window; table row estimate is "
          ++ f.fixed 0 estimate.1
          ++ ".";
      guidance =
          "Correlate with query digests and plans before adding indexes; full scans can be intentional for analytical workloads.";
      confidence = f.lit 82 2;
    })

  abbrev pub full_scan_heavy_table_rule : Rule N
  full_scan_heavy_table_rule = record {
    id = "mysql.full_scan_heavy_table";
    requires = "schema.objects" ∷ "mysql.performance_schema" ∷ [];
    evaluate = λ ctx. collect (full_scan_heavy_table ctx.current) (sorted_delta_groups ctx.deltas);
  }

  unfoldable pub query_high_total_time : List (Delta N) → Delta N → Option (Finding N)
  unfolding severity_at
  query_high_total_time deltas metric = do
    skip_if (
        not (metric.key == "mysql.query.total_latency_ms")
        || not (metric.exactness == exactness_sampled)
        || f.le metric.window_seconds (whole 0)
        || f.lt metric.delta (whole 1000))
    group ← lookup (group_deltas deltas) (group_key metric.object)
    calls ← lookup group.values "core.query.calls"
    skip_if (f.lt calls (whole 5))
    let intensity = f.div metric.delta (f.mul metric.window_seconds (whole 1000))
    severity ← severity_at intensity (whole 2) (f.lit 5 1)
    some (record {
      id = "mysql.query_high_total_time";
      title = "Query contributes high total statement time";
      severity = severity;
      object = metric.object;
      evidence = [];
      summary =
          "The query accumulated "
          ++ f.fixed 2 (f.div metric.delta (whole 1000))
          ++ "s of statement time across "
          ++ f.fixed 0 calls
          ++ " calls in a "
          ++ f.fixed 2 metric.window_seconds
          ++ "s sample ("
          ++ f.fixed 2 intensity
          ++ " database-seconds per wall-second).";
      guidance =
          "Prioritize this query by total database-time contribution, then review its normalized shape, latency, row amplification, index signals, and a plan-only EXPLAIN before changing schema or configuration.";
      confidence = f.lit 90 2;
    })

  abbrev pub query_high_total_time_rule : Rule N
  query_high_total_time_rule = record {
    id = "mysql.query_high_total_time";
    requires = "workload.query_summary" ∷ [];
    evaluate = λ ctx. collect (query_high_total_time ctx.deltas) ctx.deltas;
  }
