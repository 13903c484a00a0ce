-- ===== src/Inspect/History.antt =====
-- internal/app/inspect/history.go: how a report becomes a snapshot of the history. The store is any
-- implementation of `temporal.Store`, by its state and its `Save`.
pub mod Laws
use dbprobe.Base.{String, Option, none, some, Bool, List, [], ◌∷◌}
use dbprobe.Collection.Result.{Warning}
use dbprobe.Base.Outcome.{Outcome, ok, err}
use dbprobe.Sdk.Clock.{Time}
use dbprobe.Sdk.Finding.{Finding}
use dbprobe.Sdk.Signal.{Observation, Delta}
use dbprobe.Temporal.Snapshot.{Hash, SnapshotInput, Snapshot, new_snapshot}

pub record TargetMetadata : Type 0 where
  pub engine : String
  pub adapter_id : String
  pub fingerprint : String
  pub display_name : String

pub record Privilege : Type 0 where
  pub name : String
  pub scope : String
  pub reason : String

pub record SecurityProfile : Type 0 where
  pub read_only_guaranteed : Bool
  pub required : List Privilege
  pub recommended : List Privilege
  pub missing : List Privilege

pub record Report (N : Type 0) : Type 0 where
  pub schema_version : String
  pub collected_at : Time
  pub target : TargetMetadata
  pub capabilities : List String
  pub security : SecurityProfile
  pub observations : List (Observation N)
  pub deltas : List (Delta N)
  pub findings : List (Finding N)
  pub warnings : List Warning

abbrev pub history_incomplete : Warning
history_incomplete = record {
  collector_id = "history";
  reason = "snapshot persistence skipped because inspection evidence is incomplete";
}

abbrev pub history_failed : Warning
history_failed = record { collector_id = "history"; reason = "snapshot persistence failed" }

abbrev pub report_input : {N : Type 0} → Report N → String → SnapshotInput N
report_input report adapter_version = record {
  target_fingerprint = report.target.fingerprint;
  engine = report.target.engine;
  adapter_id = report.target.adapter_id;
  adapter_version = adapter_version;
  collected_at = report.collected_at;
  capabilities = report.capabilities;
  observations = report.observations;
  deltas = report.deltas;
  findings = report.findings;
}

-- what is made of the error of `Save`
unfoldable pub after_save : {S : Type 0} → S × Outcome (Unit {0}) → S × Option Warning
after_save (store, ok done) = (store, none)
after_save (store, err e) = (store, some history_failed)

unfoldable pub keep_store : {S : Type 0} → S × Option Warning → Option S × Option Warning
keep_store (store, warning) = (some store, warning)

module _ {N S : Type 0} (hash : Hash) (save_to : S → Snapshot N → S × Outcome (Unit {0})) where
  unfoldable pub save_made : S → Outcome (Snapshot N) → S × Option Warning
  unfolding after_save
  save_made store (err e) = (store, some history_failed)
  save_made store (ok snapshot) = after_save (save_to store snapshot)

  -- the rest of the function, after its first check, from the report's warnings
  unfoldable pub persist_in : S → Report N → String → List Warning → S × Option Warning
  unfolding save_made
  persist_in store report adapter_version (w ∷ warnings) = (store, some history_incomplete)
  persist_in store report adapter_version [] =
      save_made store (new_snapshot hash (report_input report adapter_version))

  unfoldable pub persist_history : Option S → Report N → String → Option S × Option Warning
  unfolding persist_in keep_store
  persist_history none report adapter_version = (none, none)
  persist_history (some store) report adapter_version =
      keep_store (persist_in store report adapter_version report.warnings)
