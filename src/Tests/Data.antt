-- ===== src/Tests/Data.antt =====
-- Two inspections of one target, with numbers in thousandths.
use dbprobe.Base.{String, ℕ, some, [], ◌∷◌, leb, if◌then◌else◌}
use dbprobe.Sdk.Clock.{Time}
use dbprobe.Sdk.Signal.{
  Ref, Observation, Delta, number_observation, exactness_cumulative, exactness_sampled,
}
use dbprobe.Temporal.Snapshot.{Hash, SnapshotInput, Snapshot}
use dbprobe.Temporal.Regression.{MetricPair}

-- an earlier and a later time, as text
abbrev stamp : Time → String
stamp t = if leb t.instant 1 then "1" else "2"

abbrev pub hash : Hash
hash = record { digest = λ s. s; rfc3339_nano = stamp }

abbrev pub at : ℕ → Time
at n = record { instant = n; zone = "CET" }

abbrev pub instance_ref : Ref
instance_ref = record { kind = "mysql.instance"; id = "local" }

abbrev pub digest_ref : Ref
digest_ref = record { kind = "mysql.digest"; id = "d1" }

abbrev pub counter : String → ℕ → Observation ℕ
counter key n = number_observation key instance_ref n "count" exactness_cumulative "metadata" (at 1)

abbrev pub query_text : Observation ℕ
query_text = record (counter "mysql.query" 0) { sensitivity = "query_text"; text = some "SELECT 1" }

abbrev pub sample : String → ℕ → Delta ℕ
sample key n = record {
  key = key;
  object = digest_ref;
  unit = "count";
  delta = n;
  rate_per_second = 0;
  window_seconds = 1000;
  exactness = exactness_sampled;
}

abbrev pub metrics : MetricPair
metrics = record { calls_key = "calls"; total_latency_key = "latency" }

abbrev pub earlier_input : SnapshotInput ℕ
earlier_input = record {
  target_fingerprint = "db1";
  engine = "mysql";
  adapter_id = "mysql";
  adapter_version = "1";
  collected_at = at 1;
  capabilities = "b" ∷ "a" ∷ "b" ∷ [];
  observations = counter "x" 7000 ∷ query_text ∷ counter "y" 1000 ∷ [];
  deltas = sample "calls" 10000 ∷ sample "latency" 20000 ∷ [];
  findings = [];
}

abbrev pub later_input : SnapshotInput ℕ
later_input = record earlier_input {
  collected_at = at 2;
  observations = counter "x" 3000 ∷ counter "z" 1000 ∷ [];
  deltas = sample "calls" 10000 ∷ sample "latency" 200000 ∷ [];
}

abbrev pub earlier : Snapshot ℕ
earlier = record {
  schema_version = "dbprobe.snapshot/v1alpha1";
  id = "db1|1";
  target_fingerprint = "db1";
  engine = "mysql";
  adapter_id = "mysql";
  adapter_version = "1";
  collected_at = record { instant = 1; zone = "UTC" };
  capabilities = "a" ∷ "b" ∷ [];
  observations = counter "x" 7000 ∷ counter "y" 1000 ∷ [];
  deltas = earlier_input.deltas;
  findings = [];
}

abbrev pub later : Snapshot ℕ
later = record earlier {
  id = "db1|2";
  collected_at = record { instant = 2; zone = "UTC" };
  observations = later_input.observations;
  deltas = later_input.deltas;
}
