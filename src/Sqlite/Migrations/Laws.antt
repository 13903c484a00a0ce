-- ===== src/Sqlite/Migrations/Laws.antt =====
-- A migration brings the schema to the version of the program, or changes nothing.
use Prim.Native.String.{◌++◌}
use dbprobe.Base.{
  ℕ, zero, suc, ltb, nat_eq, String, Option, none, some, true, List, [], ◌∷◌, ◌≡◌, inl, inr, refl,
  arith, false, Option-cases,
}
use dbprobe.Base.Outcome.{Outcome, ok, err}
use dbprobe.Sqlite.Migrations.{
  ℤ, pos, negsuc, Statement, create_snapshots, index_snapshots, create_trend_metrics,
  index_trend_metrics, set_user_version, Schema, Connection, MigrationFaults, execute,
  migration_statements, apply_statements, finish_tx, run_migration, migrate,
}

-- a schema with both tables and both indexes, of the program's version
abbrev pub current : Schema
current = record {
  snapshots = true;
  snapshots_target_time = true;
  trend_metrics = true;
  trend_metrics_lookup = true;
  user_version = pos 1;
}

-- a connection that has no transaction open
abbrev pub at_rest : Schema → Connection
at_rest schema = record { schema = schema; working = none }

abbrev pub prefixed : String → Option String → Option String
prefixed prefix none = none
prefixed prefix (some message) = some (prefix ++ message)

-- the first error, if there is one
abbrev pub first_error : List (Option String) → Outcome (Unit {0})
first_error [] = ok tt
first_error (none ∷ errors) = first_error errors
first_error (some message ∷ errors) = err message

-- Only the versions 0 and 1 are supported.
abbrev pub version_error : (ℤ → String) → ℤ → Option String
version_error decimal (pos zero) = none
version_error decimal (pos (suc zero)) = none
version_error decimal (pos (suc (suc n))) = some (
    "SQLite schema version "
    ++ decimal (pos (suc (suc n)))
    ++ " is newer than supported version "
    ++ decimal (pos 1))
version_error decimal (negsuc n) = some ("invalid SQLite schema version " ++ decimal (negsuc n))

-- The errors of the calls that bring a schema of version 0 to version 1: the transaction, four
-- statements and the version. Any other schema needs none of these calls.
abbrev pub call_errors : MigrationFaults → ℤ → List (Option String)
call_errors faults (pos zero) =
    prefixed "begin SQLite migration: " faults.begin
    ∷ prefixed "apply SQLite migration: " (faults.apply 0)
    ∷ prefixed "apply SQLite migration: " (faults.apply 1)
    ∷ prefixed "apply SQLite migration: " (faults.apply 2)
    ∷ prefixed "apply SQLite migration: " (faults.apply 3)
    ∷ prefixed "apply SQLite migration: " (faults.apply 4)
    ∷ prefixed "commit SQLite migration: " faults.commit
    ∷ []
call_errors faults (pos (suc n)) = []
call_errors faults (negsuc n) = []

abbrev pub migration_errors : (ℤ → String) → MigrationFaults → ℤ → List (Option String)
migration_errors decimal faults version =
    prefixed "read SQLite schema version: " faults.read
    ∷ version_error decimal version
    ∷ call_errors faults version

-- what a schema of a supported version becomes
abbrev pub migrated : Schema → ℤ → Schema
migrated schema (pos zero) = current
migrated schema (pos (suc n)) = schema
migrated schema (negsuc n) = schema

-- what is left when the outcome is known: an error leaves the one schema, success the other
abbrev pub settled : Schema → Schema → Outcome (Unit {0}) → Connection × Outcome (Unit {0})
settled before after (ok done) = (at_rest after, ok tt)
settled before after (err message) = (at_rest before, err message)

-- the statements, one after the other
abbrev executed : List Statement → Schema → Schema
executed [] schema = schema
executed (statement ∷ statements) schema = executed statements (execute statement schema)

-- the errors of the statements from a position, and of the commit
abbrev errors_from : MigrationFaults → ℕ → List Statement → List (Option String)
errors_from faults i [] = prefixed "commit SQLite migration: " faults.commit ∷ []
errors_from faults i (statement ∷ statements) =
    prefixed "apply SQLite migration: " (faults.apply i) ∷ errors_from faults (suc i) statements

abbrev in_tx : Schema → Schema → Connection
in_tx schema working = record { schema = schema; working = some working }

finish_tx-apply_statements :
    (faults : MigrationFaults) (i : ℕ) (statements : List Statement) (schema working : Schema)
    → finish_tx faults (apply_statements faults i statements (in_tx schema working))
      ≡ settled schema (executed statements working) (first_error (errors_from faults i statements))
unfolding apply_statements finish_tx
finish_tx-apply_statements faults i [] schema working = elim (Option-cases faults.commit) [
  | inl e ↦ rw e refl
  | inr (message, e) ↦ rw e refl
]
finish_tx-apply_statements faults i (statement ∷ statements) schema working =
    elim (Option-cases (faults.apply i)) [
      | inl e ↦
          rw e (
            finish_tx-apply_statements faults (suc i) statements schema (execute statement working))
      | inr (message, e) ↦ rw e refl
    ]

abbrev all_statements : List Statement
all_statements =
    create_snapshots
    ∷ index_snapshots
    ∷ create_trend_metrics
    ∷ index_trend_metrics
    ∷ set_user_version 1
    ∷ []

run_migration_lem :
    (decimal : ℤ → String) (faults : MigrationFaults) (schema : Schema) (version : ℤ)
    → run_migration faults (at_rest schema) (migration_statements decimal version)
      ≡ settled schema
          (migrated schema version)
          (first_error (version_error decimal version ∷ call_errors faults version))
unfolding run_migration migration_statements execute
run_migration_lem decimal faults schema (negsuc n) = refl
run_migration_lem decimal faults schema (pos (suc zero)) = refl
run_migration_lem decimal faults schema (pos (suc (suc n))) =
    let other : nat_eq (suc (suc n)) 1 ≡ false = ground arith in
    let newer : ltb 1 (suc (suc n)) ≡ true = ground arith in rw (other, newer) refl
run_migration_lem decimal faults schema (pos zero) = elim (Option-cases faults.begin) [
  | inl e ↦ rw e (finish_tx-apply_statements faults 0 all_statements schema schema)
  | inr (message, e) ↦ rw e refl
]

-- On a connection with no transaction open, a migration answers with its first error: the version
-- cannot be read, is negative or is newer than the program's, or, from version 0 to version 1, the
-- transaction cannot be begun, one of the five statements fails, or the commit does. Then the schema
-- is as it was and no transaction is left open. Without an error it succeeds: a schema of version 1
-- is as it was, and one of version 0 has both tables, both indexes and version 1.
pub migrate-settled :
    (decimal : ℤ → String) (faults : MigrationFaults) (schema : Schema)
    → migrate decimal faults (at_rest schema)
      ≡ settled schema
          (migrated schema schema.user_version)
          (first_error (migration_errors decimal faults schema.user_version))
unfolding migrate
migrate-settled decimal faults schema = elim (Option-cases faults.read) [
  | inl e ↦ rw e (run_migration_lem decimal faults schema schema.user_version)
  | inr (message, e) ↦ rw e refl
]
