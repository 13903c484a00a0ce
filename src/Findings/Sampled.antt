-- ===== src/Findings/Sampled.antt =====
-- adapters/mysql/findings: the rules that look at the sampled deltas of one object at a time.
use Prim.Native.String.{◌++◌}
use dbprobe.Base.{String, Option, none, some, [], ◌∷◌, ◌||◌, if◌then◌else◌}
use dbprobe.Base.GoMap.{lookup}
use dbprobe.Base.Optional.{◌>>=◌, ◌>>◌, skip_if, collect}
use dbprobe.Findings.{severity_at}
use dbprobe.Findings.Groups.{DeltaGroup, sorted_delta_groups}
use dbprobe.Sdk.Finding.{Finding, Rule}
use dbprobe.Sdk.Number.{Float64, whole}

module _ {N : Type 0} ⦃f : Float64 N⦄ where
  unfoldable pub query_full_scan : DeltaGroup N → Option (Finding N)
  query_full_scan g = do
    calls ← lookup g.values "core.query.calls"
    no_index ← lookup g.values "mysql.query.no_index_used"
    skip_if (
        f.lt calls (whole 10)
        || f.lt no_index (whole 5)
        || f.lt (f.div no_index calls) (f.lit 50 2))
    some (record {
      id = "mysql.query_full_scan_heavy";
      title = "Query frequently executes without an index";
      severity = "warn";
      object = g.ref;
      evidence = [];
      summary =
          f.fixed 0 no_index
          ++ " of "
          ++ f.fixed 0 calls
          ++ " executions in the sampled window reported no index usage.";
      guidance =
          "Review the query shape, table size, selectivity, and EXPLAIN plan before adding an index; small-table scans can be intentional.";
      confidence = f.lit 85 2;
    })

  abbrev pub query_full_scan_rule : Rule N
  query_full_scan_rule = record {
    id = "mysql.query_full_scan_heavy";
    requires = "workload.query_summary" ∷ [];
    evaluate = λ ctx. collect query_full_scan (sorted_delta_groups ctx.deltas);
  }

  unfoldable pub query_amplification : DeltaGroup N → Option (Finding N)
  unfolding severity_at
  query_amplification g = do
    examined ← lookup g.values "mysql.query.rows_examined"
    sent ← lookup g.values "mysql.query.rows_sent"
    skip_if (f.lt examined (whole 10000))
    let denominator = if f.lt sent (whole 1) then whole 1 else sent
    let ratio = f.div examined denominator
    severity ← severity_at ratio (whole 1000) (whole 100)
    some (record {
      id = "mysql.query_rows_examined_amplification";
      title = "Query examines far more rows than it returns";
      severity = severity;
      object = g.ref;
      evidence = [];
      summary =
          "The sampled workload examined "
          ++ f.fixed 0 examined
          ++ " rows for "
          ++ f.fixed 0 sent
          ++ " rows sent ("
          ++ f.fixed 0 ratio
          ++ "x amplification).";
      guidance =
          "Inspect predicates, join order, statistics, and candidate indexes with a non-executing EXPLAIN before changing schema.";
      confidence = f.lit 90 2;
    })

  abbrev pub query_amplification_rule : Rule N
  query_amplification_rule = record {
    id = "mysql.query_rows_examined_amplification";
    requires = "workload.query_summary" ∷ [];
    evaluate = λ ctx. collect query_amplification (sorted_delta_groups ctx.deltas);
  }

  -- the `switch` of the buffer pool's rule: a low ratio is bad
  unfoldable pub severity_below : N → N → N → Option String
  severity_below value critical warn =
      if f.lt value critical then some "critical" else if f.lt value warn then some "warn" else none

  unfoldable pub buffer_pool_hit : DeltaGroup N → Option (Finding N)
  unfolding severity_below
  buffer_pool_hit g = do
    requests ← lookup g.values "mysql.innodb.buffer_pool.read_requests"
    reads ← lookup g.values "mysql.innodb.buffer_pool.reads"
    skip_if (f.lt requests (whole 1000) || f.le requests (whole 0))
    let miss_ratio = f.div reads requests
    let hit_ratio = f.sub (whole 1) miss_ratio
    severity ← severity_below hit_ratio (f.lit 70 2) (f.lit 95 2)
    some (record {
      id = "mysql.buffer_pool_hit_low";
      title = "InnoDB buffer pool hit ratio is low";
      severity = severity;
      object = g.ref;
      evidence = [];
      summary =
          "Sampled buffer-pool hit ratio is "
          ++ f.fixed 1 (f.mul hit_ratio (whole 100))
          ++ "% across "
          ++ f.fixed 0 requests
          ++ " read requests.";
      guidance =
          "Correlate with working-set size, memory pressure, scans, and storage latency before changing innodb_buffer_pool_size.";
      confidence = f.lit 85 2;
    })

  abbrev pub buffer_pool_hit_rule : Rule N
  buffer_pool_hit_rule = record {
    id = "mysql.buffer_pool_hit_low";
    requires = "storage.cache" ∷ [];
    evaluate = λ ctx. collect buffer_pool_hit (sorted_delta_groups ctx.deltas);
  }

  unfoldable pub no_good_index : DeltaGroup N → Option (Finding N)
  unfolding severity_at
  no_good_index group = do
    calls ← lookup group.values "core.query.calls"
    no_good ← lookup group.values "mysql.query.no_good_index_used"
    skip_if (f.lt calls (whole 10) || f.lt no_good (whole 5))
    let ratio = f.div no_good calls
    severity ← severity_at ratio (f.lit 75 2) (f.lit 25 2)
    some (record {
      id = "mysql.no_good_index";
      title = "Query frequently reports no good index";
      severity = severity;
      object = group.ref;
      evidence = [];
      summary =
          f.fixed 0 no_good
          ++ " of "
          ++ f.fixed 0 calls
          ++ " sampled executions reported no good index usage ("
          ++ f.fixed 1 (f.mul ratio (whole 100))
          ++ "%).";
      guidance =
          "Review the normalized query shape, selectivity, statistics, and a plan-only EXPLAIN before changing indexes.";
      confidence = f.lit 88 2;
    })

  abbrev pub no_good_index_rule : Rule N
  no_good_index_rule = record {
    id = "mysql.no_good_index";
    requires = "workload.query_summary" ∷ [];
    evaluate = λ ctx. collect no_good_index (sorted_delta_groups ctx.deltas);
  }

  unfoldable pub disk_temp_table : DeltaGroup N → Option (Finding N)
  unfolding severity_at
  disk_temp_table group = do
    calls ← lookup group.values "core.query.calls"
    disk_tables ← lookup group.values "mysql.query.temp_disk_tables"
    skip_if (f.lt calls (whole 10) || f.lt disk_tables (whole 3))
    let ratio = f.div disk_tables calls
    severity ← severity_at ratio (f.lit 50 2) (f.lit 10 2)
    some (record {
      id = "mysql.disk_temp_tables";
      title = "Query frequently creates on-disk temporary tables";
      severity = severity;
      object = group.ref;
      evidence = [];
      summary =
          f.fixed 0 disk_tables
          ++ " on-disk temporary tables were created across "
          ++ f.fixed 0 calls
          ++ " sampled executions ("
          ++ f.fixed 1 (f.mul ratio (whole 100))
          ++ "%).";
      guidance =
          "Inspect GROUP BY/ORDER BY/DISTINCT behavior, row width, result cardinality, and relevant memory limits before tuning server settings.";
      confidence = f.lit 88 2;
    })

  abbrev pub disk_temp_table_rule : Rule N
  disk_temp_table_rule = record {
    id = "mysql.disk_temp_tables";
    requires = "workload.query_summary" ∷ [];
    evaluate = λ ctx. collect disk_temp_table (sorted_delta_groups ctx.deltas);
  }
