-- ===== src/Sqlite/Migrations.antt =====
-- internal/platform/sqlite/migrations.go: the statements that set a connection up and bring the schema
-- of a database to the version of the program.
pub mod Laws
use Prim.Native.String.{◌++◌}
use dbprobe.Base.{
  ℕ, suc, ltb, nat_eq, String, Option, none, some, Bool, true, false, List, [], ◌∷◌, ◌≡◌, ◌⊎◌, inl,
  inr, refl, arith, if◌then◌else◌, Bool-cases,
}
use dbprobe.Base.Outcome.{attempt, Outcome, ok, err, ◌>>=◌, ◌>>◌, wrap, Outcome-cases}
use dbprobe.Sqlite.Store.{call}

-- an integer: `negsuc n` is `-(n + 1)`
pub data ℤ : Type 0 where
  pos : ℕ → ℤ
  negsuc : ℕ → ℤ

abbrev pub sqlite_schema_version : ℕ
sqlite_schema_version = 1

-- what a statement of the schema is for: each creates a table or an index if it does not exist
pub data Statement : Type 0 where
  create_snapshots : Statement
  index_snapshots : Statement
  create_trend_metrics : Statement
  index_trend_metrics : Statement
  set_user_version : ℕ → Statement

-- the schema of a database: which tables and indexes exist, and `user_version`
pub record Schema : Type 0 where
  pub snapshots : Bool
  pub snapshots_target_time : Bool
  pub trend_metrics : Bool
  pub trend_metrics_lookup : Bool
  pub user_version : ℤ

-- A connection: the schema that the database keeps, and that of the transaction, if one is open.
pub record Connection : Type 0 where
  pub schema : Schema
  pub working : Option Schema

-- The calls of the driver that fail; `apply` is by the position of the statement.
pub record MigrationFaults : Type 0 where
  pub read : Option String
  pub begin : Option String
  pub apply : ℕ → Option String
  pub commit : Option String

unfoldable pub execute : Statement → Schema → Schema
execute create_snapshots schema = record schema { snapshots = true }
execute index_snapshots schema = record schema { snapshots_target_time = true }
execute create_trend_metrics schema = record schema { trend_metrics = true }
execute index_trend_metrics schema = record schema { trend_metrics_lookup = true }
execute (set_user_version version) schema = record schema { user_version = pos version }

-- `decimal` is `%d`
unfoldable pub migration_statements : (ℤ → String) → ℤ → Outcome (List Statement)
migration_statements decimal (negsuc n) =
    err ("invalid SQLite schema version " ++ decimal (negsuc n))
migration_statements decimal (pos n) =
    if nat_eq n sqlite_schema_version
    then ok []
    else if ltb sqlite_schema_version n
    then err (
        "SQLite schema version "
        ++ decimal (pos n)
        ++ " is newer than supported version "
        ++ decimal (pos sqlite_schema_version))
    else if nat_eq n 0
    then ok (
        create_snapshots
        ∷ index_snapshots
        ∷ create_trend_metrics
        ∷ index_trend_metrics
        ∷ set_user_version 1
        ∷ [])
    else err ("unsupported SQLite schema version " ++ decimal (pos n))

-- the driver's `BeginTx`, `ExecContext`, `Commit` and `Rollback`, when they do not fail
abbrev pub begin_tx : Connection → Connection
begin_tx conn = record conn { working = some conn.schema }

abbrev pub exec_in : Statement → Option Schema → Option Schema
exec_in statement none = none
exec_in statement (some schema) = some (execute statement schema)

abbrev pub exec_tx : Statement → Connection → Connection
exec_tx statement conn = record conn { working = exec_in statement conn.working }

abbrev pub kept_by : Schema → Option Schema → Schema
kept_by schema none = schema
kept_by schema (some changed) = changed

abbrev pub commit_tx : Connection → Connection
commit_tx conn = record { schema = kept_by conn.schema conn.working; working = none }

abbrev pub roll_back : Connection → Connection
roll_back conn = record conn { working = none }

-- the loop over the statements, from a position
unfoldable pub apply_statements :
    MigrationFaults → ℕ → List Statement → Connection → Connection × Outcome (Unit {0})
unfolding execute
apply_statements faults i [] conn = (conn, ok tt)
apply_statements faults i (statement ∷ statements) conn =
    attempt (wrap "apply SQLite migration: " (call (faults.apply i))) conn
      (apply_statements faults (suc i) statements (exec_tx statement conn))

-- the commit, and the deferred rollback of what was not committed
unfoldable pub finish_tx :
    MigrationFaults → Connection × Outcome (Unit {0}) → Connection × Outcome (Unit {0})
finish_tx faults (conn, err message) = (roll_back conn, err message)
finish_tx faults (conn, ok done) =
    attempt (wrap "commit SQLite migration: " (call faults.commit)) (roll_back conn)
      (commit_tx conn, ok tt)

-- the transaction, if there is anything to do
unfoldable pub run_migration :
    MigrationFaults → Connection → Outcome (List Statement) → Connection × Outcome (Unit {0})
unfolding apply_statements finish_tx
run_migration faults conn (err message) = (conn, err message)
run_migration faults conn (ok []) = (conn, ok tt)
run_migration faults conn (ok (statement ∷ statements)) =
    attempt (wrap "begin SQLite migration: " (call faults.begin)) conn
      (finish_tx faults (apply_statements faults 0 (statement ∷ statements) (begin_tx conn)))

unfoldable pub migrate :
    (ℤ → String) → MigrationFaults → Connection → Connection × Outcome (Unit {0})
unfolding migration_statements run_migration
migrate decimal faults conn =
    attempt (wrap "read SQLite schema version: " (call faults.read)) conn
      (run_migration faults conn (migration_statements decimal conn.schema.user_version))
