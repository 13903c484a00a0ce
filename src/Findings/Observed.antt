-- ===== src/Findings/Observed.antt =====
-- adapters/mysql/findings: the rules that look at one observation at a time. A rule is the body of
-- its loop and the loop.
use Prim.Native.String.{◌++◌}
use dbprobe.Base.{Option, none, some, Bool, true, not, [], ◌∷◌, ◌==◌, ◌||◌}
use dbprobe.Base.Optional.{◌>>=◌, ◌>>◌, skip_if, collect}
use dbprobe.Findings.{severity_at}
use dbprobe.Sdk.Finding.{Finding, Rule}
use dbprobe.Sdk.Number.{Float64, whole}
use dbprobe.Sdk.Signal.{Observation}

-- `observation.Boolean == nil || *observation.Boolean`
abbrev pub nil_or_true : Option Bool → Bool
nil_or_true none = true
nil_or_true (some b) = b

module _ {N : Type 0} ⦃f : Float64 N⦄ where
  unfoldable pub long_transaction : Observation N → Option (Finding N)
  unfolding severity_at
  long_transaction obs = do
    skip_if (not (obs.key == "mysql.transaction.age_seconds"))
    age ← obs.number
    severity ← severity_at age (whole 1800) (whole 300)
    some (record {
      id = "mysql.long_transaction";
      title = "Long-running transaction";
      severity = severity;
      object = record { kind = "mysql.transaction_class"; id = "long-running" };
      evidence = obs ∷ [];
      summary = "A transaction has been open for " ++ f.fixed 0 age ++ " seconds.";
      guidance =
          "Identify the owning application/session and shorten the transaction boundary. Avoid terminating sessions automatically.";
      confidence = f.lit 95 2;
    })

  abbrev pub long_transaction_rule : Rule N
  long_transaction_rule = record {
    id = "mysql.long_transaction";
    requires = "activity.transactions" ∷ [];
    evaluate = λ ctx. collect long_transaction ctx.current;
  }

  unfoldable pub missing_primary_key : Observation N → Option (Finding N)
  missing_primary_key observation = do
    skip_if (
        not (observation.key == "mysql.table.primary_key_present")
        || nil_or_true observation.boolean)
    some (record {
      id = "mysql.missing_primary_key";
      title = "Table has no explicit primary key";
      severity = "warn";
      object = observation.object;
      evidence = observation ∷ [];
      summary = "The table has no explicit PRIMARY KEY in schema metadata.";
      guidance =
          "Review access patterns, uniqueness requirements, replication/online-schema-change constraints, and table size before adding a primary key.";
      confidence = f.lit 98 2;
    })

  abbrev pub missing_primary_key_rule : Rule N
  missing_primary_key_rule = record {
    id = "mysql.missing_primary_key";
    requires = "schema.objects" ∷ [];
    evaluate = λ ctx. collect missing_primary_key ctx.current;
  }

  unfoldable pub auto_increment_exhaustion : Observation N → Option (Finding N)
  unfolding severity_at
  auto_increment_exhaustion observation = do
    skip_if (not (observation.key == "mysql.auto_increment.utilization_ratio"))
    ratio ← observation.number
    severity ← severity_at ratio (f.lit 95 2) (f.lit 80 2)
    some (record {
      id = "mysql.auto_increment_exhaustion";
      title = "AUTO_INCREMENT range is nearing exhaustion";
      severity = severity;
      object = observation.object;
      evidence = observation ∷ [];
      summary =
          "AUTO_INCREMENT utilization is approximately "
          ++ f.fixed 1 (f.mul ratio (whole 100))
          ++ "% of the column type range.";
      guidance =
          "Confirm the column type/signedness and growth rate, then plan a schema migration before exhaustion. dbprobe does not alter the column automatically.";
      confidence = f.lit 95 2;
    })

  abbrev pub auto_increment_exhaustion_rule : Rule N
  auto_increment_exhaustion_rule = record {
    id = "mysql.auto_increment_exhaustion";
    requires = "schema.objects" ∷ [];
    evaluate = λ ctx. collect auto_increment_exhaustion ctx.current;
  }

  unfoldable pub purge_lag : Observation N → Option (Finding N)
  unfolding severity_at
  purge_lag observation = do
    skip_if (not (observation.key == "mysql.innodb.history_list_length"))
    length ← observation.number
    severity ← severity_at length (whole 1000000) (whole 100000)
    some (record {
      id = "mysql.innodb_purge_lag";
      title = "InnoDB purge history list is large";
      severity = severity;
      object = observation.object;
      evidence = observation ∷ [];
      summary =
          "InnoDB history list length is approximately "
          ++ f.fixed 0 length
          ++ " undo records awaiting purge eligibility/progress.";
      guidance =
          "Correlate with long-running consistent-read transactions, write-heavy workload, purge-thread throughput, undo growth, and innodb_max_purge_lag policy. Do not tune purge limits without confirming the blocking workload.";
      confidence = f.lit 90 2;
    })

  abbrev pub purge_lag_rule : Rule N
  purge_lag_rule = record {
    id = "mysql.innodb_purge_lag";
    requires = "mysql.innodb_metrics" ∷ [];
    evaluate = λ ctx. collect purge_lag ctx.current;
  }

  unfoldable pub lock_wait_long : Observation N → Option (Finding N)
  unfolding severity_at
  lock_wait_long observation = do
    skip_if (not (observation.key == "mysql.transaction.lock_wait_seconds"))
    seconds ← observation.number
    severity ← severity_at seconds (whole 50) (whole 30)
    some (record {
      id = "mysql.lock_wait_long";
      title = "Transaction has a prolonged InnoDB row-lock wait";
      severity = severity;
      object = record { kind = "mysql.transaction_class"; id = "long-lock-wait" };
      evidence = observation ∷ [];
      summary =
          "An InnoDB transaction has been waiting on a row lock for "
          ++ f.fixed 0 seconds
          ++ " seconds.";
      guidance =
          "Inspect the blocking transaction, lock graph, transaction boundaries, and application retry/timeout behavior. Do not automatically kill the blocker without application context.";
      confidence = f.lit 95 2;
    })

  abbrev pub lock_wait_long_rule : Rule N
  lock_wait_long_rule = record {
    id = "mysql.lock_wait_long";
    requires = "activity.transactions" ∷ [];
    evaluate = λ ctx. collect lock_wait_long ctx.current;
  }

  unfoldable pub replication_apply_lag : Observation N → Option (Finding N)
  unfolding severity_at
  replication_apply_lag observation = do
    skip_if (not (observation.key == "mysql.replication.active_apply_lag_seconds"))
    seconds ← observation.number
    severity ← severity_at seconds (whole 120) (whole 30)
    some (record {
      id = "mysql.replication_apply_lag";
      title = "Replica is applying a transaction well behind its source commit time";
      severity = severity;
      object = observation.object;
      evidence = observation ∷ [];
      summary =
          "The actively applied transaction is "
          ++ f.fixed 0 seconds
          ++ " seconds behind its original source commit timestamp after configured delayed-replication time is removed.";
      guidance =
          "Inspect worker retries, transaction apply duration, replica CPU/IO pressure, source write bursts, and replication parallelism. Idle channels intentionally do not emit this signal; verify source/replica clock synchronization before treating small differences as exact lag.";
      confidence = f.lit 88 2;
    })

  abbrev pub replication_apply_lag_rule : Rule N
  replication_apply_lag_rule = record {
    id = "mysql.replication_apply_lag";
    requires = "replication.status" ∷ [];
    evaluate = λ ctx. collect replication_apply_lag ctx.current;
  }

  unfoldable pub replication_error : Observation N → Option (Finding N)
  replication_error obs = do
    skip_if (not (obs.key == "mysql.replication.error_code"))
    code ← obs.number
    skip_if (f.eq code (whole 0))
    some (record {
      id = "mysql.replication_error";
      title = "Replication component reports an error";
      severity = "critical";
      object = obs.object;
      evidence = obs ∷ [];
      summary = "Replication error code " ++ f.fixed 0 code ++ " is present.";
      guidance =
          "Resolve the numeric replication error using server logs and source/replica state. dbprobe intentionally does not collect potentially sensitive error-message text.";
      confidence = f.lit 98 2;
    })

  abbrev pub replication_error_rule : Rule N
  replication_error_rule = record {
    id = "mysql.replication_error";
    requires = "replication.status" ∷ [];
    evaluate = λ ctx. collect replication_error ctx.current;
  }
