-- ===== src/Tests/Inspection.antt =====
-- An inspection's rules and its history.
use dbprobe.Base.{
  String, ℕ, Option, some, none, List, [], ◌∷◌, ◌++◌, ◌≡◌, ◌≢◌, false, refl, arith, eq_iff,
}
use dbprobe.Base.GoMap.{lookup}
use dbprobe.Base.Outcome.{ok}
use dbprobe.Baseline.Memory.{Memory, new_memory, by_id, save}
use dbprobe.Baseline.Memory.Laws.{keep_or}
use dbprobe.Findings.Observed.{purge_lag_rule, lock_wait_long_rule}
use dbprobe.Inspect.History.{Report, report_input, persist_history}
use dbprobe.Inspect.History.Laws.{persist_history_saved}
use dbprobe.Inspect.Rules.{core_rules, compose_rules}
use dbprobe.Inspect.Rules.Laws.{compose_rules-eq, first_of_each, present}
use dbprobe.Sdk.Clock.{is_zero}
use dbprobe.Sdk.Finding.{Rule}
use dbprobe.Sdk.Number.{milli}
use dbprobe.Temporal.Snapshot.{Hash, Snapshot, new_snapshot}
use dbprobe.Temporal.Snapshot.Laws.{IsComplete}
use dbprobe.Tests.Data.{earlier_input, at}

-- the adapter gives a rule twice, and a nil rule
abbrev repeated : List (Option (Rule ℕ))
repeated = some purge_lag_rule ∷ none ∷ some lock_wait_long_rule ∷ some purge_lag_rule ∷ []

compose_rules-eq_example :
    compose_rules core_rules repeated ≡ first_of_each (present (core_rules ++ repeated))
compose_rules-eq_example = compose_rules-eq core_rules repeated

abbrev constant_hash : Hash
constant_hash = record { digest = λ text. "00"; rfc3339_nano = λ t. "1970" }

abbrev report : Report ℕ
report = record {
  schema_version = "dbprobe.inspect/v1alpha1";
  collected_at = at 1;
  target = record {
    engine = "mysql";
    adapter_id = "mysql";
    fingerprint = "db1";
    display_name = "db1";
  };
  capabilities = earlier_input.capabilities;
  security = record { read_only_guaranteed = false; required = []; recommended = []; missing = [] };
  observations = earlier_input.observations;
  deltas = earlier_input.deltas;
  findings = [];
  warnings = [];
}

report-IsComplete : IsComplete constant_hash (report_input report "1")
unfolding is_zero
report-IsComplete = record {
  target = ground (arith, eq_iff "db1" "");
  engine = ground (arith, eq_iff "mysql" "");
  adapter = ground (arith, eq_iff "mysql" "");
  time = refl;
}

digest_filled : (text : String) → constant_hash.digest text ≢ ""
digest_filled text = ground (arith, eq_iff "00" "")

persist_history_saved_example :
    (s : Snapshot ℕ) × (m : Memory ℕ) × (new_snapshot constant_hash (report_input report "1")
      ≡ ok s)
    × (persist_history constant_hash (save constant_hash) (some new_memory) report "1"
        ≡ (some m, none))
    × (lookup (by_id m s.target_fingerprint) s.id
        ≡ keep_or constant_hash (lookup (by_id new_memory s.target_fingerprint) s.id) s)
persist_history_saved_example =
    persist_history_saved constant_hash digest_filled new_memory report "1" refl report-IsComplete
