-- ===== src/Sqlite/Codec.antt =====
-- internal/platform/sqlite/codec.go: a snapshot as the bytes of a row, and as rows of metrics. A
-- payload is the text of its bytes.
pub mod Laws
use Prim.Native.String.{◌++◌}
use dbprobe.Base.{
  ℕ, zero, suc, ◌+◌, ◌*◌, ◌^◌, ltb, String, Option, none, some, Bool, true, false, not, List, [],
  ◌∷◌, ◌==◌, if◌then◌else◌, nat_eq,
}
use dbprobe.Base.GoStrings.{byte_len}
use dbprobe.Base.Lists.{length}
use dbprobe.Base.Outcome.{Outcome, ok, err, ◌>>=◌, ◌>>◌, fail_if, wrap}
use dbprobe.Base.Sort.{sort, less_by, less_on}
use dbprobe.Sdk.Signal.{Observation, Delta}
use dbprobe.Temporal.Snapshot.{Hash, Snapshot, snapshot_schema_version, new_snapshot, input_of}

-- What the standard library does to a snapshot: `json.Marshal`, `json.Unmarshal`, and `%q`.
pub record Json (N : Type 0) : Type 0 where
  pub marshal : Snapshot N → Outcome String
  pub unmarshal : String → Outcome (Snapshot N)
  pub quote : String → String

pub data MetricKind : Type 0 where
  metric_kind_observation : MetricKind
  metric_kind_delta : MetricKind

abbrev pub max_snapshot_payload_bytes : ℕ
max_snapshot_payload_bytes = 16 * 2 ^ 20

abbrev pub max_trend_metric_rows : ℕ
max_trend_metric_rows = 100000

pub record TrendMetric (N : Type 0) : Type 0 where
  pub snapshot_id : String
  pub metric_kind : MetricKind
  pub signal_key : String
  pub object_kind : String
  pub object_id : String
  pub numeric_value : N
  pub unit : String
  pub exactness : String
  pub rate_per_second : Option N
  pub window_seconds : Option N

module _ {N : Type 0} (hash : Hash) (json : Json N) where
  unfoldable pub validate_snapshot : Snapshot N → Outcome (Snapshot N)
  validate_snapshot snapshot = do
    fail_if (not (snapshot.schema_version == snapshot_schema_version))
        ("unsupported snapshot schema version " ++ json.quote snapshot.schema_version)
    normalized ← wrap "validate SQLite snapshot payload: " (new_snapshot hash (input_of snapshot))
    fail_if (not (normalized.id == snapshot.id))
        "SQLite snapshot payload ID does not match target/time identity"
    ok normalized

  unfoldable pub encode_snapshot : Snapshot N → Outcome String
  unfolding validate_snapshot
  encode_snapshot snapshot = do
    normalized ← validate_snapshot snapshot
    payload ← wrap "encode SQLite snapshot payload: " (json.marshal normalized)
    fail_if (ltb max_snapshot_payload_bytes (byte_len payload))
        "SQLite snapshot payload exceeds 16777216 bytes"
    ok payload

  unfoldable pub decode_snapshot : String → Outcome (Snapshot N)
  unfolding validate_snapshot
  decode_snapshot payload = do
    fail_if (nat_eq (byte_len payload) 0) "SQLite snapshot payload is empty"
    fail_if (ltb max_snapshot_payload_bytes (byte_len payload))
        "SQLite snapshot payload exceeds 16777216 bytes"
    snapshot ← wrap "decode SQLite snapshot payload: " (json.unmarshal payload)
    validate_snapshot snapshot

-- the order of the kinds: an observation is before a delta
abbrev pub kind_less : MetricKind → MetricKind → Bool → Bool
kind_less metric_kind_observation metric_kind_delta less = true
kind_less metric_kind_delta metric_kind_observation less = false
kind_less metric_kind_observation metric_kind_observation less = less
kind_less metric_kind_delta metric_kind_delta less = less

abbrev pub has_number : {N : Type 0} → Option N → Bool
has_number none = false
has_number (some n) = true

module _ {N : Type 0} where
  abbrev pub metric_less : TrendMetric N → TrendMetric N → Bool
  metric_less left right = kind_less left.metric_kind right.metric_kind (
      less_by (λ m. m.signal_key) (less_by (λ m. m.object_kind) (less_on (λ m. m.object_id))) left
        right)

  -- the loop that counts
  unfoldable pub numeric_observations : List (Observation N) → ℕ
  numeric_observations [] = 0
  numeric_observations (observation ∷ rest) =
      let count = numeric_observations rest in
      if has_number observation.number then suc count else count

  abbrev pub observation_metric : String → Observation N → N → TrendMetric N
  observation_metric id observation number = record {
    snapshot_id = id;
    metric_kind = metric_kind_observation;
    signal_key = observation.key;
    object_kind = observation.object.kind;
    object_id = observation.object.id;
    numeric_value = number;
    unit = observation.unit;
    exactness = observation.exactness;
    rate_per_second = none;
    window_seconds = none;
  }

  abbrev pub delta_metric : String → Delta N → TrendMetric N
  delta_metric id delta = record {
    snapshot_id = id;
    metric_kind = metric_kind_delta;
    signal_key = delta.key;
    object_kind = delta.object.kind;
    object_id = delta.object.id;
    numeric_value = delta.delta;
    unit = delta.unit;
    exactness = delta.exactness;
    rate_per_second = some delta.rate_per_second;
    window_seconds = some delta.window_seconds;
  }

  -- one turn of the loop over the observations
  abbrev pub add_number :
      String → Observation N → Option N → List (TrendMetric N) → List (TrendMetric N)
  add_number id observation none rows = rows
  add_number id observation (some number) rows = observation_metric id observation number ∷ rows

  unfoldable pub delta_rows : String → List (Delta N) → List (TrendMetric N)
  delta_rows id [] = []
  delta_rows id (delta ∷ deltas) = delta_metric id delta ∷ delta_rows id deltas

  -- the two loops that append the rows
  unfoldable pub metric_rows : String → List (Observation N) → List (Delta N) → List (TrendMetric N)
  unfolding delta_rows
  metric_rows id [] deltas = delta_rows id deltas
  metric_rows id (observation ∷ rest) deltas =
      add_number id observation observation.number (metric_rows id rest deltas)

  unfoldable pub extract_trend_metrics : Snapshot N → Outcome (List (TrendMetric N))
  unfolding metric_rows numeric_observations
  extract_trend_metrics snapshot = do
    fail_if
        (ltb max_trend_metric_rows
          (numeric_observations snapshot.observations + length snapshot.deltas))
        "SQLite trend metric row budget exceeded"
    ok (sort metric_less (metric_rows snapshot.id snapshot.observations snapshot.deltas))
