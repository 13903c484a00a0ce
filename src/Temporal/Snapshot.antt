-- ===== src/Temporal/Snapshot.antt =====
-- internal/core/temporal/snapshot.go: the record of one inspection, as it is persisted.
pub mod Laws
use Prim.Native.String.{◌++◌}
use dbprobe.Base.{String, Option, none, some, Bool, true, false, List, [], ◌∷◌, ◌==◌, if◌then◌else◌}
use dbprobe.Base.GoMap.{keys}
use dbprobe.Base.Outcome.{Outcome, ok, err, ◌>>=◌, ◌>>◌, fail_if}
use dbprobe.Base.Sort.{sort_strings}
use dbprobe.Sdk.Capability.{add_all}
use dbprobe.Sdk.Clock.{Time, is_zero, utc}
use dbprobe.Sdk.Finding.{Finding}
use dbprobe.Sdk.Signal.{Observation, Delta, sensitivity_query_text}

abbrev pub snapshot_schema_version : String
snapshot_schema_version = "dbprobe.snapshot/v1alpha1"

-- What the standard library does to an identity: the hexadecimal digits of the first 16 bytes of a
-- text's SHA-256, and a UTC time as RFC 3339 with nanoseconds.
pub record Hash : Type 0 where
  pub digest : String → String
  pub rfc3339_nano : Time → String

pub record SnapshotInput (N : Type 0) : Type 0 where
  pub target_fingerprint : String
  pub engine : String
  pub adapter_id : String
  pub adapter_version : String
  pub collected_at : Time
  pub capabilities : List String
  pub observations : List (Observation N)
  pub deltas : List (Delta N)
  pub findings : List (Finding N)

pub record Snapshot (N : Type 0) : Type 0 where
  pub schema_version : String
  pub id : String
  pub target_fingerprint : String
  pub engine : String
  pub adapter_id : String
  pub adapter_version : String
  pub collected_at : Time
  pub capabilities : List String
  pub observations : List (Observation N)
  pub deltas : List (Delta N)
  pub findings : List (Finding N)

unfoldable pub normalize_capabilities : List String → List String
normalize_capabilities values = sort_strings (keys (add_all values []))

-- a new pointer to an equal value
abbrev copy : {A : Type 0} → Option A → Option A
copy none = none
copy (some a) = some a

module _ {N : Type 0} where
  unfoldable pub clone_observation : Observation N → Observation N
  clone_observation value = record value {
    number = copy value.number;
    text = copy value.text;
    boolean = copy value.boolean;
  }

  unfoldable pub clone_observations : List (Observation N) → List (Observation N)
  unfolding clone_observation
  clone_observations [] = []
  clone_observations (value ∷ values) =
      let rest = clone_observations values in
      if value.sensitivity == sensitivity_query_text then rest else clone_observation value ∷ rest

  unfoldable pub clone_findings : List (Finding N) → List (Finding N)
  unfolding clone_observations
  clone_findings [] = []
  clone_findings (value ∷ values) =
      record value { evidence = clone_observations value.evidence } ∷ clone_findings values

module _ (hash : Hash) where
  -- The identity of a snapshot: its target and its time.
  unfoldable pub snapshot_id : String → Time → String
  snapshot_id target at = hash.digest (target ++ "|" ++ hash.rfc3339_nano at)

  unfoldable pub new_snapshot : {N : Type 0} → SnapshotInput N → Outcome (Snapshot N)
  unfolding utc
  new_snapshot input = do
    fail_if (input.target_fingerprint == "") "snapshot target fingerprint is required"
    fail_if (input.engine == "") "snapshot engine is required"
    fail_if (input.adapter_id == "") "snapshot adapter ID is required"
    fail_if (is_zero input.collected_at) "snapshot collection time is required"
    let collected_at = utc input.collected_at
    ok (record {
      schema_version = snapshot_schema_version;
      id = snapshot_id input.target_fingerprint collected_at;
      target_fingerprint = input.target_fingerprint;
      engine = input.engine;
      adapter_id = input.adapter_id;
      adapter_version = input.adapter_version;
      collected_at = collected_at;
      capabilities = normalize_capabilities input.capabilities;
      observations = clone_observations input.observations;
      deltas = input.deltas;
      findings = clone_findings input.findings;
    })

-- The input that the stores build from a snapshot, to copy or to validate it.
abbrev pub input_of : {N : Type 0} → Snapshot N → SnapshotInput N
input_of s = record {
  target_fingerprint = s.target_fingerprint;
  engine = s.engine;
  adapter_id = s.adapter_id;
  adapter_version = s.adapter_version;
  collected_at = s.collected_at;
  capabilities = s.capabilities;
  observations = s.observations;
  deltas = s.deltas;
  findings = s.findings;
}
