-- ===== src/Findings/Rules.antt =====
-- adapters/mysql/runtime.go: the rules of the adapter for MySQL, in the order in which they run.
pub mod Bodies
pub mod Evidence
use mathlib.Core.List
use dbprobe.Base.{String, ℕ, List, [], ◌∷◌}
use dbprobe.Findings.Observed.{
  long_transaction_rule, missing_primary_key_rule, auto_increment_exhaustion_rule, purge_lag_rule,
  lock_wait_long_rule, replication_apply_lag_rule, replication_error_rule,
}
use dbprobe.Findings.Sampled.{
  query_full_scan_rule, query_amplification_rule, buffer_pool_hit_rule, no_good_index_rule,
  disk_temp_table_rule,
}
use dbprobe.Findings.Engine.{
  redo_pressure_rule, deadlock_rate_rule, full_scan_heavy_table_rule, query_high_total_time_rule,
}
use dbprobe.Findings.Indexes.{unused_index_rule, redundant_index_rule}
use dbprobe.Findings.Totals.{replication_stopped_rule, lock_contention_rule}
use dbprobe.Findings.Chain.{blocking_chain_rule}
use dbprobe.Sdk.Finding.{Rule}
use dbprobe.Sdk.Number.{Float64}

module _ {N : Type 0} ⦃f : Float64 N⦄ where
  abbrev pub rules : (String → String) → List (Rule N)
  rules quote =
      long_transaction_rule
      ∷ query_full_scan_rule
      ∷ query_amplification_rule
      ∷ unused_index_rule
      ∷ redundant_index_rule
      ∷ buffer_pool_hit_rule
      ∷ replication_stopped_rule quote
      ∷ replication_error_rule
      ∷ lock_contention_rule
      ∷ []

  abbrev pub risk_rules : List (Rule N)
  risk_rules =
      missing_primary_key_rule ∷ auto_increment_exhaustion_rule ∷ no_good_index_rule
      ∷ disk_temp_table_rule ∷ redo_pressure_rule ∷ deadlock_rate_rule ∷ full_scan_heavy_table_rule
      ∷ []

  abbrev pub query_time_rules : List (Rule N)
  query_time_rules = query_high_total_time_rule ∷ []

  abbrev pub lock_wait_rules : (ℕ → String) → List (Rule N)
  lock_wait_rules decimal = lock_wait_long_rule ∷ blocking_chain_rule decimal ∷ []

  abbrev pub replication_lag_rules : List (Rule N)
  replication_lag_rules = replication_apply_lag_rule ∷ []

  abbrev pub purge_rules : List (Rule N)
  purge_rules = purge_lag_rule ∷ []

  abbrev pub mysql_rules : (String → String) → (ℕ → String) → List (Rule N)
  mysql_rules quote decimal = List.◌++◌ (rules quote) (
      List.◌++◌ risk_rules (
        List.◌++◌ query_time_rules
          (List.◌++◌ (lock_wait_rules decimal) (List.◌++◌ replication_lag_rules purge_rules))))
