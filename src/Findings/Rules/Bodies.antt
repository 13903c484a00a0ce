-- ===== src/Findings/Rules/Bodies.antt =====
-- What the body of each rule's loop appends: the rule's identity, a known severity, the evidence.
use dbprobe.Base.{String, some, Bool, true, List, [], ◌∷◌, ◌==◌, ◌||◌, ◌≡◌, ◌↔◌, eq_iff, arith}
use dbprobe.Base.GoMap.{GoMap}
use dbprobe.Findings.{severity_at, severity_from}
use dbprobe.Findings.Groups.{DeltaGroup}
use dbprobe.Findings.Observed.{
  long_transaction, missing_primary_key, auto_increment_exhaustion, purge_lag, lock_wait_long,
  replication_apply_lag, replication_error,
}
use dbprobe.Findings.Sampled.{
  query_full_scan, query_amplification, buffer_pool_hit, no_good_index, disk_temp_table,
  severity_below,
}
use dbprobe.Findings.Engine.{redo_pressure, deadlock_rate, query_high_total_time}
use dbprobe.Findings.Indexes.{IndexState, unused_index, redundant_index}
use dbprobe.Findings.Totals.{ReplicationChannel, replication_stopped, lock_contention}
use dbprobe.Sdk.Finding.{Finding}
use dbprobe.Sdk.Number.{Float64}
use dbprobe.Sdk.Signal.{Ref, Observation, Delta}

abbrev pub is_severity : String → Bool
is_severity s = (s == "info") || (s == "warn") || (s == "critical")

-- The identity, the severity and the evidence of a finding.
abbrev pub Reports : {N : Type 0} → String → List (Observation N) → Finding N → Type 0
Reports id evidence y = (y.id ≡ id) × (is_severity y.severity ≡ true) × (y.evidence ≡ evidence)

-- the equations by which a severity is recognised
pub severity_iff :
    (s : String)
    → (((s == "info") ≡ true) ↔ (s ≡ "info"))
      × (((s == "warn") ≡ true) ↔ (s ≡ "warn"))
      × (((s == "critical") ≡ true) ↔ (s ≡ "critical"))
severity_iff s = (eq_iff s "info", eq_iff s "warn", eq_iff s "critical")

module _ {N : Type 0} ⦃f : Float64 N⦄ where
  pub long_transaction-Reports :
      (x : Observation N) (y : Finding N)
      → long_transaction x ≡ some y
      → Reports "mysql.long_transaction" (x ∷ []) y
  unfolding long_transaction severity_at severity_from severity_below
  long_transaction-Reports x y h = ground (arith, severity_iff y.severity)

  pub missing_primary_key-Reports :
      (x : Observation N) (y : Finding N)
      → missing_primary_key x ≡ some y
      → Reports "mysql.missing_primary_key" (x ∷ []) y
  unfolding missing_primary_key severity_at severity_from severity_below
  missing_primary_key-Reports x y h = ground (arith, severity_iff y.severity)

  pub auto_increment_exhaustion-Reports :
      (x : Observation N) (y : Finding N)
      → auto_increment_exhaustion x ≡ some y
      → Reports "mysql.auto_increment_exhaustion" (x ∷ []) y
  unfolding auto_increment_exhaustion severity_at severity_from severity_below
  auto_increment_exhaustion-Reports x y h = ground (arith, severity_iff y.severity)

  pub purge_lag-Reports :
      (x : Observation N) (y : Finding N)
      → purge_lag x ≡ some y
      → Reports "mysql.innodb_purge_lag" (x ∷ []) y
  unfolding purge_lag severity_at severity_from severity_below
  purge_lag-Reports x y h = ground (arith, severity_iff y.severity)

  pub lock_wait_long-Reports :
      (x : Observation N) (y : Finding N)
      → lock_wait_long x ≡ some y
      → Reports "mysql.lock_wait_long" (x ∷ []) y
  unfolding lock_wait_long severity_at severity_from severity_below
  lock_wait_long-Reports x y h = ground (arith, severity_iff y.severity)

  pub replication_apply_lag-Reports :
      (x : Observation N) (y : Finding N)
      → replication_apply_lag x ≡ some y
      → Reports "mysql.replication_apply_lag" (x ∷ []) y
  unfolding replication_apply_lag severity_at severity_from severity_below
  replication_apply_lag-Reports x y h = ground (arith, severity_iff y.severity)

  pub replication_error-Reports :
      (x : Observation N) (y : Finding N)
      → replication_error x ≡ some y
      → Reports "mysql.replication_error" (x ∷ []) y
  unfolding replication_error severity_at severity_from severity_below
  replication_error-Reports x y h = ground (arith, severity_iff y.severity)

  pub query_full_scan-Reports :
      (x : DeltaGroup N) (y : Finding N)
      → query_full_scan x ≡ some y
      → Reports "mysql.query_full_scan_heavy" [] y
  unfolding query_full_scan severity_at severity_from severity_below
  query_full_scan-Reports x y h = ground (arith, severity_iff y.severity)

  pub query_amplification-Reports :
      (x : DeltaGroup N) (y : Finding N)
      → query_amplification x ≡ some y
      → Reports "mysql.query_rows_examined_amplification" [] y
  unfolding query_amplification severity_at severity_from severity_below
  query_amplification-Reports x y h = ground (arith, severity_iff y.severity)

  pub buffer_pool_hit-Reports :
      (x : DeltaGroup N) (y : Finding N)
      → buffer_pool_hit x ≡ some y
      → Reports "mysql.buffer_pool_hit_low" [] y
  unfolding buffer_pool_hit severity_at severity_from severity_below
  buffer_pool_hit-Reports x y h = ground (arith, severity_iff y.severity)

  pub no_good_index-Reports :
      (x : DeltaGroup N) (y : Finding N)
      → no_good_index x ≡ some y
      → Reports "mysql.no_good_index" [] y
  unfolding no_good_index severity_at severity_from severity_below
  no_good_index-Reports x y h = ground (arith, severity_iff y.severity)

  pub disk_temp_table-Reports :
      (x : DeltaGroup N) (y : Finding N)
      → disk_temp_table x ≡ some y
      → Reports "mysql.disk_temp_tables" [] y
  unfolding disk_temp_table severity_at severity_from severity_below
  disk_temp_table-Reports x y h = ground (arith, severity_iff y.severity)

  pub redo_pressure-Reports :
      (x : DeltaGroup N) (y : Finding N)
      → redo_pressure x ≡ some y
      → Reports "mysql.redo_pressure" [] y
  unfolding redo_pressure severity_at severity_from severity_below
  redo_pressure-Reports x y h = ground (arith, severity_iff y.severity)

  pub deadlock_rate-Reports :
      (x : DeltaGroup N) (y : Finding N)
      → deadlock_rate x ≡ some y
      → Reports "mysql.deadlock_rate_high" [] y
  unfolding deadlock_rate severity_at severity_from severity_below
  deadlock_rate-Reports x y h = ground (arith, severity_iff y.severity)

  pub query_high_total_time-Reports :
      (deltas : List (Delta N)) (x : Delta N) (y : Finding N)
      → query_high_total_time deltas x ≡ some y
      → Reports "mysql.query_high_total_time" [] y
  unfolding query_high_total_time severity_at severity_from severity_below
  query_high_total_time-Reports deltas x y h = ground (arith, severity_iff y.severity)

  pub unused_index-Reports :
      (uptime : N) (states : GoMap (IndexState N)) (x : String) (y : Finding N)
      → unused_index uptime states x ≡ some y
      → Reports "mysql.unused_index" [] y
  unfolding unused_index severity_at severity_from severity_below
  unused_index-Reports uptime states x y h = ground (arith, severity_iff y.severity)

  pub redundant_index-Reports :
      (states : GoMap (IndexState N)) (ids : List String) (x : String) (y : Finding N)
      → redundant_index states ids x ≡ some y
      → Reports "mysql.redundant_index" [] y
  unfolding redundant_index severity_at severity_from severity_below
  redundant_index-Reports states ids x y h = ground (arith, severity_iff y.severity)

  pub replication_stopped-Reports :
      (quote : String → String) (states : GoMap ReplicationChannel) (x : String) (y : Finding N)
      → replication_stopped quote states x ≡ some y
      → Reports "mysql.replication_stopped" [] y
  unfolding replication_stopped severity_at severity_from severity_below
  replication_stopped-Reports quote states x y h = ground (arith, severity_iff y.severity)

  pub lock_contention-Reports :
      (totals : GoMap N × GoMap Ref) (x : String) (y : Finding N)
      → lock_contention totals x ≡ some y
      → Reports "mysql.lock_wait_contention" [] y
  unfolding lock_contention severity_at severity_from severity_below
  lock_contention-Reports totals x y h = ground (arith, severity_iff y.severity)
