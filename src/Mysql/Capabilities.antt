-- ===== src/Mysql/Capabilities.antt =====
-- adapters/mysql/capabilities.go: what a server can be asked, found out by trying a statement for each.
pub mod Laws
use dbprobe.Base.{
  String, Option, none, some, Bool, true, false, ◌&&◌, List, [], ◌∷◌, ◌++◌, if◌then◌else◌,
}
use dbprobe.Sdk.Capability.{CapabilitySet, new}

abbrev pub probe_performance_schema : String
probe_performance_schema =
    "SELECT\n  EXISTS(SELECT 1 FROM performance_schema.global_status LIMIT 1),\n  EXISTS(SELECT 1 FROM performance_schema.global_variables LIMIT 1)"

abbrev pub probe_sessions : String
probe_sessions = "SELECT 1 FROM performance_schema.threads LIMIT 1"

abbrev pub probe_transactions : String
probe_transactions = "SELECT COUNT(*) FROM information_schema.innodb_trx"

abbrev pub probe_query_digest : String
probe_query_digest = "SELECT COUNT(*) FROM performance_schema.events_statements_summary_by_digest"

abbrev pub probe_indexes : String
probe_indexes =
    "SELECT COUNT(*)\nFROM information_schema.statistics s\nLEFT JOIN performance_schema.table_io_waits_summary_by_index_usage p\n  ON p.OBJECT_SCHEMA = s.TABLE_SCHEMA\n AND p.OBJECT_NAME = s.TABLE_NAME\n AND p.INDEX_NAME = s.INDEX_NAME\nWHERE s.TABLE_SCHEMA = DATABASE()"

abbrev pub probe_objects : String
probe_objects =
    "SELECT COUNT(*)\nFROM information_schema.tables t\nLEFT JOIN information_schema.columns c\n  ON c.TABLE_SCHEMA = t.TABLE_SCHEMA\n AND c.TABLE_NAME = t.TABLE_NAME\nLEFT JOIN information_schema.statistics s\n  ON s.TABLE_SCHEMA = t.TABLE_SCHEMA\n AND s.TABLE_NAME = t.TABLE_NAME\nWHERE t.TABLE_SCHEMA = DATABASE()"

abbrev pub probe_schema_fingerprint : String
probe_schema_fingerprint =
    "SELECT\n  EXISTS(SELECT 1 FROM information_schema.tables WHERE TABLE_SCHEMA = DATABASE() LIMIT 1),\n  EXISTS(SELECT 1 FROM information_schema.columns WHERE TABLE_SCHEMA = DATABASE() LIMIT 1),\n  EXISTS(SELECT 1 FROM information_schema.statistics WHERE TABLE_SCHEMA = DATABASE() LIMIT 1),\n  EXISTS(SELECT 1 FROM information_schema.table_constraints WHERE CONSTRAINT_SCHEMA = DATABASE() LIMIT 1),\n  EXISTS(SELECT 1 FROM information_schema.key_column_usage WHERE CONSTRAINT_SCHEMA = DATABASE() LIMIT 1),\n  EXISTS(SELECT 1 FROM information_schema.check_constraints WHERE CONSTRAINT_SCHEMA = DATABASE() LIMIT 1),\n  EXISTS(SELECT 1 FROM information_schema.referential_constraints WHERE CONSTRAINT_SCHEMA = DATABASE() LIMIT 1)"

abbrev pub probe_lock_waits : String
probe_lock_waits =
    "SELECT COUNT(*)\nFROM performance_schema.data_lock_waits w\nLEFT JOIN performance_schema.data_locks l\n  ON l.ENGINE = w.ENGINE\n AND l.ENGINE_LOCK_ID = w.REQUESTING_ENGINE_LOCK_ID"

abbrev pub probe_replication : String
probe_replication =
    "SELECT COUNT(*)\nFROM performance_schema.replication_connection_status c\nLEFT JOIN performance_schema.replication_applier_status a\n  ON a.CHANNEL_NAME = c.CHANNEL_NAME\nLEFT JOIN performance_schema.replication_applier_status_by_coordinator co\n  ON co.CHANNEL_NAME = c.CHANNEL_NAME\nLEFT JOIN performance_schema.replication_applier_status_by_worker w\n  ON w.CHANNEL_NAME = c.CHANNEL_NAME\nLEFT JOIN performance_schema.replication_applier_configuration cfg\n  ON cfg.CHANNEL_NAME = c.CHANNEL_NAME"

abbrev pub probe_storage_cache : String
probe_storage_cache =
    "SELECT COUNT(*) FROM performance_schema.global_status WHERE VARIABLE_NAME IN ('Innodb_buffer_pool_reads','Innodb_buffer_pool_read_requests')"

abbrev pub probe_explain : String
probe_explain = "EXPLAIN FORMAT=JSON SELECT 1"

abbrev pub probe_innodb : String
probe_innodb =
    "SELECT COUNT(*) FROM information_schema.engines WHERE engine = 'InnoDB' AND support IN ('YES','DEFAULT')"

abbrev pub probe_innodb_metrics : String
probe_innodb_metrics =
    "SELECT COUNT FROM INFORMATION_SCHEMA.INNODB_METRICS WHERE NAME = 'trx_rseg_history_len' LIMIT 1"

abbrev pub probe_sys : String
probe_sys = "SELECT 1 FROM sys.version LIMIT 1"

-- a probe: the error of the statement, if any
abbrev pub Probe : Type 0
Probe = String → Option String

-- `err == nil`
unfoldable pub answers : Probe → String → Bool
answers probe query = elim (probe query) [ none ↦ true | some _ ↦ false ]

-- `addIf`
unfoldable pub add_if : Probe → String → List String → List String → List String
add_if probe query caps values = if answers probe query then values ++ caps else values

-- `values` after the probe of the performance schema, and the statements that need it
unfoldable pub with_performance_schema : Probe → Bool → List String
unfolding add_if
with_performance_schema probe false = []
with_performance_schema probe true =
    let values = "mysql.performance_schema" ∷ [] in
    let values = add_if probe probe_sessions ("activity.sessions" ∷ []) values in
    let values = add_if probe probe_query_digest ("workload.query_summary" ∷ []) values in
    let values = add_if probe probe_indexes ("schema.indexes" ∷ []) values in
    let values = add_if probe probe_lock_waits ("locking.wait_graph" ∷ []) values in
    let values =
      add_if probe probe_replication ("replication.status" ∷ "mysql.replication" ∷ []) values in
    add_if probe probe_storage_cache ("storage.cache" ∷ []) values

-- the statements that need no performance schema
unfoldable pub with_the_rest : Probe → List String → List String
unfolding add_if
with_the_rest probe values =
    let values = add_if probe probe_transactions ("activity.transactions" ∷ []) values in
    let values = add_if probe probe_objects ("schema.objects" ∷ []) values in
    let values = add_if probe probe_schema_fingerprint ("mysql.schema_fingerprint" ∷ []) values in
    let values = add_if probe probe_explain ("query.explain" ∷ []) values in
    let values = add_if probe probe_innodb ("mysql.innodb" ∷ []) values in
    let values = add_if probe probe_innodb_metrics ("mysql.innodb_metrics" ∷ []) values in
    add_if probe probe_sys ("mysql.sys_schema" ∷ []) values

unfoldable pub discover_capabilities : Bool → Probe → CapabilitySet
unfolding with_performance_schema with_the_rest
discover_capabilities performance_schema probe =
    let is_readable = performance_schema && answers probe probe_performance_schema in
    new (with_the_rest probe (with_performance_schema probe is_readable))
