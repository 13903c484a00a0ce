-- ===== src/Sqlite/Store.antt =====
-- internal/platform/sqlite/baseline.go: the store over a database. A call of the driver may fail, at
-- any time: `Faults` says which calls of a method do, with the driver's message. A transaction that
-- does not commit leaves the database as it was.
pub mod Atomic
pub mod Represents
pub mod Queries
pub mod Invariant
use dbprobe.Base.{
  ℕ, suc, ltb, nat_eq, String, Option, none, some, Bool, true, false, not, ◌||◌, List, [], ◌∷◌,
  ◌++◌, ◌==◌, if◌then◌else◌,
}
use dbprobe.Base.Outcome.{Outcome, ok, err, ◌>>=◌, ◌>>◌, fail_if, wrap, attempt}
use dbprobe.Baseline.Spec.{err_snapshot_not_found}
use dbprobe.Sdk.Clock.{Time, is_zero, utc}
use dbprobe.Sqlite.Codec.{
  Json, TrendMetric, validate_snapshot, encode_snapshot, decode_snapshot, extract_trend_metrics,
}
use dbprobe.Sqlite.Database.{
  unix_nano, Row, Database, list_snapshots, latest_snapshot, previous_snapshot, payload_by_id,
  has_id,
}
use dbprobe.Temporal.Snapshot.{Hash, Snapshot}

pub record Faults : Type 0 where
  pub acquire : Option String
  pub configure : Option String
  pub begin : Option String
  pub insert : Option String
  pub affected : Option String
  pub verify : Option String
  pub trend : ℕ → Option String
  pub commit : Option String
  pub query : Option String
  pub scan : ℕ → Option String
  pub iterate : Option String

abbrev pub no_faults : Faults
no_faults = record {
  acquire = none;
  configure = none;
  begin = none;
  insert = none;
  affected = none;
  verify = none;
  trend = λ i. none;
  commit = none;
  query = none;
  scan = λ i. none;
  iterate = none;
}

abbrev pub call : Option String → Outcome (Unit {0})
call none = ok tt
call (some message) = err message

-- the error of a query that finds no row
abbrev pub stored_or : Option String → Outcome String
stored_or none = err "sql: no rows in result set"
stored_or (some payload) = ok payload

-- `withConn`
unfoldable pub with_conn : {A : Type 0} → Faults → Outcome A → Outcome A
with_conn faults run = do
  wrap "acquire SQLite connection: " (call faults.acquire)
  wrap "configure SQLite connection: " (call faults.configure)
  run

module _ {N : Type 0} where
  abbrev pub row_of : Snapshot N → String → Row
  row_of snapshot payload = record {
    id = snapshot.id;
    target_fingerprint = snapshot.target_fingerprint;
    engine = snapshot.engine;
    adapter_id = snapshot.adapter_id;
    adapter_version = snapshot.adapter_version;
    schema_version = snapshot.schema_version;
    collected_at_ns = unix_nano snapshot.collected_at;
    payload = payload;
  }

  -- `INSERT OR IGNORE INTO snapshots`, and the number of rows that it inserted
  unfoldable pub insert_snapshot : Row → Database N → Database N × ℕ
  insert_snapshot row db =
      if has_id row.id db.snapshots
      then (db, 0)
      else (record db { snapshots = db.snapshots ++ (row ∷ []) }, 1)

  -- the loop over the rows of metrics, from a position, over the database as the transaction has it
  unfoldable pub insert_trends :
      Faults → ℕ → List (TrendMetric N) → Database N → Database N × Outcome (Unit {0})
  insert_trends faults i [] db = (db, ok tt)
  insert_trends faults i (trend ∷ trends) db =
      attempt (wrap "insert SQLite trend metric: " (call (faults.trend i))) db (
        insert_trends faults (suc i) trends
          (record db { trend_metrics = db.trend_metrics ++ (trend ∷ []) }))

  -- an insert that was ignored: the payload that is stored must be the same
  unfoldable pub verify_existing : Faults → Row → Database N → Outcome (Unit {0})
  verify_existing faults row db = do
    wrap "verify existing SQLite snapshot: " (call faults.verify)
    existing ←
        wrap "verify existing SQLite snapshot: " (stored_or (payload_by_id db.snapshots row.id))
    fail_if (not (existing == row.payload))
        "SQLite snapshot identity collision: existing payload differs"

  -- the statements of the transaction, once it is begun
  unfoldable pub write_rows :
      Faults → Row → List (TrendMetric N) → Database N → Database N × Outcome (Unit {0})
  unfolding insert_snapshot insert_trends verify_existing
  write_rows faults row trends db =
      let (working, inserted) = insert_snapshot row db in
      attempt (wrap "insert SQLite snapshot: " (call faults.insert)) db (
        attempt (wrap "read SQLite snapshot insert result: " (call faults.affected)) working (
          attempt (fail_if (ltb 1 inserted) "SQLite snapshot insert affected rows") working (
            if nat_eq inserted 0
            then (working, verify_existing faults row working)
            else insert_trends faults 0 trends working)))

  -- the commit of the database as the transaction has it, and the deferred rollback to what was before
  unfoldable pub finish_save :
      Faults → Database N → Database N × Outcome (Unit {0}) → Database N × Outcome (Unit {0})
  finish_save faults db (working, err message) = (db, err message)
  finish_save faults db (working, ok done) =
      attempt (wrap "commit SQLite snapshot transaction: " (call faults.commit)) db (working, ok tt)

  unfoldable pub transaction :
      Faults → Row → List (TrendMetric N) → Database N → Database N × Outcome (Unit {0})
  unfolding write_rows finish_save
  transaction faults row trends db =
      attempt (wrap "begin SQLite snapshot transaction: " (call faults.begin)) db
        (finish_save faults db (write_rows faults row trends db))

  module _ (hash : Hash) (json : Json N) where
    -- what `Save` does in its transaction, when a snapshot passes
    unfoldable pub prepare : Snapshot N → Outcome (Row × List (TrendMetric N))
    prepare snapshot = do
      normalized ← validate_snapshot hash json snapshot
      payload ← encode_snapshot hash json normalized
      trends ← extract_trend_metrics normalized
      ok (row_of normalized payload, trends)

    unfoldable pub save_prepared :
        Faults → Database N → Outcome (Row × List (TrendMetric N)) → Database N × Outcome (Unit {0})
    unfolding transaction with_conn
    save_prepared faults db (err message) = (db, err message)
    save_prepared faults db (ok (row, trends)) =
        attempt (with_conn faults (ok tt)) db (transaction faults row trends db)

    unfoldable pub save : Faults → Database N → Snapshot N → Database N × Outcome (Unit {0})
    unfolding prepare save_prepared
    save faults db snapshot = save_prepared faults db (prepare snapshot)

    -- the columns of a row against the snapshot that its payload holds
    abbrev pub envelope_differs : String → Row → Snapshot N → Bool
    envelope_differs target row snapshot =
        not (row.target_fingerprint == target)
        || not (snapshot.target_fingerprint == row.target_fingerprint)
        || not (snapshot.id == row.id)
        || not (snapshot.engine == row.engine)
        || not (snapshot.adapter_id == row.adapter_id)
        || not (snapshot.adapter_version == row.adapter_version)
        || not (snapshot.schema_version == row.schema_version)
        || not (nat_eq (unix_nano snapshot.collected_at) row.collected_at_ns)

    -- `scanStoredSnapshot` of a row, with the driver's error if there is one
    unfoldable pub scan_row : Option String → String → Row → Outcome (Snapshot N)
    scan_row fault target row = do
      wrap "scan SQLite snapshot: " (call fault)
      snapshot ← decode_snapshot hash json row.payload
      fail_if (envelope_differs target row snapshot)
          "SQLite snapshot envelope does not match payload"
      ok snapshot

    unfoldable pub scan_stored_snapshot : Option String → String → Option Row → Outcome (Snapshot N)
    unfolding scan_row
    scan_stored_snapshot fault target none =
        wrap "scan SQLite snapshot: " (call fault) >> err err_snapshot_not_found
    scan_stored_snapshot fault target (some row) = scan_row fault target row

    unfoldable pub latest : Faults → Database N → String → Outcome (Snapshot N)
    unfolding scan_stored_snapshot with_conn latest_snapshot
    latest faults db target = do
      fail_if (target == "") "target fingerprint is required"
      with_conn faults (scan_stored_snapshot (faults.scan 0) target (latest_snapshot db target))

    unfoldable pub previous : Faults → Database N → String → Time → Outcome (Snapshot N)
    unfolding scan_stored_snapshot with_conn previous_snapshot
    previous faults db target before = do
      fail_if (target == "") "target fingerprint is required"
      fail_if (is_zero before) "previous snapshot time is required"
      with_conn faults (
          scan_stored_snapshot (faults.scan 0) target
            (previous_snapshot db target (unix_nano (utc before))))

    -- the loop over the rows, from a position
    unfoldable pub scan_rows : Faults → ℕ → String → List Row → Outcome (List (Snapshot N))
    unfolding scan_row
    scan_rows faults i target [] = ok []
    scan_rows faults i target (row ∷ rows) = do
      snapshot ← scan_row (faults.scan i) target row
      snapshots ← scan_rows faults (suc i) target rows
      ok (snapshot ∷ snapshots)

    abbrev pub found : List (Snapshot N) → Outcome (List (Snapshot N))
    found [] = err err_snapshot_not_found
    found (snapshot ∷ snapshots) = ok (snapshot ∷ snapshots)

    unfoldable pub list : Faults → Database N → String → ℕ → Outcome (List (Snapshot N))
    unfolding scan_rows with_conn list_snapshots
    list faults db target limit = do
      fail_if (target == "") "target fingerprint is required"
      with_conn faults (do
        wrap "query SQLite snapshots: " (call faults.query)
        snapshots ← scan_rows faults 0 target (list_snapshots db target limit)
        wrap "iterate SQLite snapshots: " (call faults.iterate)
        found snapshots)
