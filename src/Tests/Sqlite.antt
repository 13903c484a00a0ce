-- ===== src/Tests/Sqlite.antt =====
-- The store in SQLite, with a JSON that can write one snapshot.
use dbprobe.Base.{
  ℕ, ◌+◌, ◌≤◌, String, some, none, false, List, [], ◌∷◌, ◌≡◌, ◌≢◌, ◌⊎◌, refl, ap, sym, ◌∙◌, nat_eq,
  if◌then◌else◌, arith,
}
use dbprobe.Base.GoStrings.{byte_len}
use dbprobe.Base.Lists.{length}
use dbprobe.Base.Outcome.{ok, err}
use dbprobe.Base.Sort.{IsSorted, sort, sort_insert}
use dbprobe.Baseline.Spec.{Answers}
use dbprobe.Sdk.Capability.{add_all}
use dbprobe.Sdk.Clock.{Time, before, is_zero, utc}
use dbprobe.Sqlite.Codec.{
  Json, observation_metric, delta_metric, metric_rows, delta_rows, TrendMetric,
  max_snapshot_payload_bytes, max_trend_metric_rows, metric_less, numeric_observations,
  validate_snapshot, encode_snapshot, decode_snapshot, extract_trend_metrics,
}
use dbprobe.Sqlite.Codec.Laws.{
  IsFaithful, decode_snapshot-encode_snapshot, extract_trend_metrics-IsSorted,
}
use dbprobe.Sqlite.Database.{Row, Database}
use dbprobe.Sqlite.Migrations.{pos, MigrationFaults, Schema, migrate}
use dbprobe.Sqlite.Migrations.Laws.{at_rest, migrate-settled}
use dbprobe.Sqlite.Store.{row_of, Faults, no_faults, prepare, previous, save}
use dbprobe.Sqlite.Store.Atomic.{Written, save_atomic}
use dbprobe.Sqlite.Store.Invariant.{save-Represents}
use dbprobe.Sqlite.Store.Queries.{previous-newest}
use dbprobe.Sqlite.Store.Represents.{Represents, stored_for}
use dbprobe.Temporal.Snapshot.{
  Snapshot, new_snapshot, snapshot_id, normalize_capabilities, clone_observations, clone_findings,
}
use dbprobe.Tests.Data.{hash, counter, sample}

-- an instant of 1970, with one number and one delta
abbrev stored : Snapshot ℕ
stored = record {
  schema_version = "dbprobe.snapshot/v1alpha1";
  id = "db1|2";
  target_fingerprint = "db1";
  engine = "mysql";
  adapter_id = "mysql";
  adapter_version = "1";
  collected_at = record { instant = 62135596800000000000; zone = "UTC" };
  capabilities = [];
  observations = counter "questions" 7000 ∷ [];
  deltas = sample "questions" 3000 ∷ [];
  findings = [];
}

abbrev json : Json ℕ
json = record { marshal = λ s. ok "{}"; unmarshal = λ payload. ok stored; quote = λ text. text }

validated : validate_snapshot hash json stored ≡ ok stored
unfolding validate_snapshot new_snapshot snapshot_id normalize_capabilities clone_observations
    clone_findings is_zero utc sort add_all
validated = refl

two_bytes : byte_len "{}" ≡ 2
unfolding byte_len
two_bytes = refl

-- what validation gives is what JSON can read back
readable : (n : Snapshot ℕ) → validate_snapshot hash json stored ≡ ok n → IsFaithful hash json n
readable n h =
    let e : ok n ≡ ok stored = sym h ∙ validated in
    let same : stored ≡ n = cc in
    record { reads = λ payload k. ap ok same; fills = λ payload k. payload_filled payload k }
  where
    payload_filled : (payload : String) → ok "{}" ≡ ok payload → byte_len payload ≢ 0
    payload_filled payload k =
        let e : "{}" ≡ payload = cc in
        let size : byte_len payload ≡ 2 = ap byte_len (sym e) ∙ two_bytes in omega arith

encoded : encode_snapshot hash json stored ≡ ok "{}"
unfolding encode_snapshot byte_len
encoded = rw validated refl

decoded : decode_snapshot hash json "{}" ≡ ok stored
unfolding decode_snapshot byte_len
decoded = validated

abbrev rows : List (TrendMetric ℕ)
rows =
    observation_metric "db1|2" (counter "questions" 7000) 7000
    ∷ delta_metric "db1|2" (sample "questions" 3000)
    ∷ []

extracted : extract_trend_metrics stored ≡ ok rows
unfolding extract_trend_metrics metric_rows delta_rows numeric_observations sort sort_insert
extracted = refl

abbrev next_day : Time
next_day = record { instant = 62135683200000000000; zone = "UTC" }

not_zero : is_zero next_day ≡ false
unfolding is_zero
not_zero = refl

decode_snapshot-encode_snapshot_example :
    (n : Snapshot ℕ) × (validate_snapshot hash json stored ≡ ok n)
    × (decode_snapshot hash json "{}" ≡ ok n)
    × (byte_len "{}" ≤ max_snapshot_payload_bytes)
decode_snapshot-encode_snapshot_example =
    decode_snapshot-encode_snapshot hash json stored "{}" readable encoded

extract_trend_metrics-IsSorted_example :
    (length rows ≤ max_trend_metric_rows)
    × (length rows ≡ numeric_observations stored.observations + length stored.deltas)
    × IsSorted metric_less rows
extract_trend_metrics-IsSorted_example = extract_trend_metrics-IsSorted stored rows extracted

abbrev empty : Database ℕ
empty = record { snapshots = []; trend_metrics = [] }

empty-Represents : Represents hash json [] empty
empty-Represents = record { rows = refl; reads = tt; ranges = tt }

-- the second row of metrics is not written
abbrev full_disk : Faults
full_disk = record no_faults { trend = λ i. if nat_eq i 1 then some "disk full" else none }

save_atomic_example :
    ((message : String) × (save hash json full_disk empty stored ≡ (empty, err message)))
    ⊎ ((row : Row) × (trends : List (TrendMetric ℕ)) × (after : Database ℕ) × (save hash json
            full_disk empty stored
          ≡ (after, ok tt))
        × (prepare hash json stored ≡ ok (row, trends))
        × Written row trends empty after)
save_atomic_example = save_atomic hash json full_disk empty stored

save-Represents_example :
    Represents hash json [] (save hash json no_faults empty stored).0
    ⊎ ((e : Snapshot ℕ × String) × (validate_snapshot hash json stored ≡ ok e.0)
        × Represents hash json (e ∷ []) (save hash json no_faults empty stored).0)
save-Represents_example =
    save-Represents hash json no_faults [] empty stored empty-Represents readable refl

abbrev held : Database ℕ
held = record { snapshots = row_of stored "{}" ∷ []; trend_metrics = rows }

held-Represents : Represents hash json ((stored, "{}") ∷ []) held
held-Represents = record { rows = refl; reads = (decoded, tt); ranges = (refl, tt) }

previous-newest_example :
    Answers
      (λ s. before s.collected_at next_day)
      (stored_for ((stored, "{}") ∷ []) "db1")
      (previous hash json no_faults held "db1" next_day)
previous-newest_example =
    previous-newest hash json ((stored, "{}") ∷ []) held held-Represents "db1" next_day refl
      not_zero refl

abbrev no_schema : Schema
no_schema = record {
  snapshots = false;
  snapshots_target_time = false;
  trend_metrics = false;
  trend_metrics_lookup = false;
  user_version = pos 0;
}

abbrev locked : MigrationFaults
locked = record { read = none; begin = none; apply = λ i. none; commit = some "database is locked" }

migrate-settled_example :
    migrate (λ version. "#") locked (at_rest no_schema)
    ≡ (at_rest no_schema, err "commit SQLite migration: database is locked")
migrate-settled_example = migrate-settled (λ version. "#") locked no_schema
