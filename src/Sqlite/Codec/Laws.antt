-- ===== src/Sqlite/Codec/Laws.antt =====
-- What is written is read back, and how many rows of metrics a snapshot has.
use dbprobe.Base.{
  suc, ◌+◌, ◌≤◌, ltb, nat_eq, String, Option, none, some, Bool, true, false, not, List, [], ◌∷◌,
  ◌==◌, ◌≡◌, ◌≢◌, refl, ◌∙◌, arith, if◌then◌else◌, eq_refl,
}
use dbprobe.Base.GoStrings.{byte_len}
use dbprobe.Base.Lists.{length}
use dbprobe.Base.Outcome.{
  Outcome, ok, err, ◌>>=◌, >>=-eq-ok, wrap, wrap-eq-ok, fail_if-eq-ok, ◌>>◌, fail_if,
}
use dbprobe.Base.Sort.{
  sort, IsSorted, IsWeakOrder, sort-IsSorted, length-sort, less_by-IsWeakOrder, less_on-IsWeakOrder,
  less_by, less_on,
}
use dbprobe.Sdk.Signal.{Observation, Delta}
use dbprobe.Sqlite.Codec.{
  Json, MetricKind, metric_kind_observation, metric_kind_delta, max_snapshot_payload_bytes,
  max_trend_metric_rows, TrendMetric, validate_snapshot, encode_snapshot, decode_snapshot,
  has_number, kind_less, metric_less, numeric_observations, add_number, delta_rows, metric_rows,
  extract_trend_metrics,
}
use dbprobe.Temporal.Snapshot.{Hash, Snapshot, snapshot_schema_version, new_snapshot, input_of}
use dbprobe.Temporal.Snapshot.Laws.{new_snapshot_idem}

module _ {N : Type 0} (hash : Hash) (json : Json N) where
  -- `json.Unmarshal` reads what `json.Marshal` wrote of a snapshot, which is not empty.
  pub record IsFaithful (n : Snapshot N) : Type 0 where
    pub reads : (payload : String) → json.marshal n ≡ ok payload → json.unmarshal payload ≡ ok n
    pub fills : (payload : String) → json.marshal n ≡ ok payload → byte_len payload ≢ 0

  pub validate_snapshot-new :
      (s : Snapshot N) {n : Snapshot N}
      → validate_snapshot hash json s ≡ ok n
      → new_snapshot hash (input_of s) ≡ ok n
  unfolding validate_snapshot
  validate_snapshot-new s {n} h = from (new_snapshot hash (input_of s)) _ _ h
    where
      -- the checks around a call
      from :
          (call : Outcome (Snapshot N)) (first : Bool) (message : String)
          → (fail_if first message
              >> (wrap "validate SQLite snapshot payload: " call >>= λ m.
                  fail_if
                    (not (m.id == s.id))
                    "SQLite snapshot payload ID does not match target/time identity"
                  >> ok m))
            ≡ ok n
          → call ≡ ok n
      from (err e) first message k = absurd (ground arith)
      from (ok m) first message k =
          (fail_if-eq-ok (not (m.id == s.id)) _ (ok m) (fail_if-eq-ok first message _ k).1).1

  new_snapshot-schema :
      (s n : Snapshot N)
      → new_snapshot hash (input_of s) ≡ ok n
      → n.schema_version ≡ snapshot_schema_version
  unfolding new_snapshot
  new_snapshot-schema s n h = ground arith

  -- To validate what was validated changes nothing.
  pub validate_snapshot_idem :
      (s : Snapshot N) {n : Snapshot N}
      → validate_snapshot hash json s ≡ ok n
      → validate_snapshot hash json n ≡ ok n
  unfolding validate_snapshot
  validate_snapshot_idem s {n} h =
      let made = validate_snapshot-new s h in
      let fits : (n.schema_version == snapshot_schema_version) ≡ true =
        rw (new_snapshot-schema s n made) (eq_refl snapshot_schema_version) in
      rw (fits, new_snapshot_idem hash (input_of s) made, eq_refl n.id) refl

  first_check : (p : String) → byte_len p ≢ 0 → nat_eq (byte_len p) 0 ≡ false
  first_check p h = ground arith

  -- Suppose that `json.Unmarshal` reads back what `json.Marshal` writes of the validated snapshot, and
  -- that this is not empty. Then a payload that `encodeSnapshot` makes is within the limit of bytes, and
  -- `decodeSnapshot`, with its checks of the payload and its own validation, accepts it and answers with
  -- the validated snapshot.
  pub decode_snapshot-encode_snapshot :
      (s : Snapshot N) (payload : String)
      → ((n : Snapshot N) → validate_snapshot hash json s ≡ ok n → IsFaithful n)
      → encode_snapshot hash json s ≡ ok payload
      → (n : Snapshot N) × (validate_snapshot hash json s ≡ ok n)
        × (decode_snapshot hash json payload ≡ ok n)
        × (byte_len payload ≤ max_snapshot_payload_bytes)
  unfolding encode_snapshot decode_snapshot
  decode_snapshot-encode_snapshot s payload f h =
      let (n, valid, written) = >>=-eq-ok (validate_snapshot hash json s) _ h in
      let (p, marshalled, checked) =
        >>=-eq-ok (wrap "encode SQLite snapshot payload: " (json.marshal n)) _ written in
      let wrote = wrap-eq-ok "encode SQLite snapshot payload: " (json.marshal n) marshalled in
      let (small, same) =
        fail_if-eq-ok (ltb max_snapshot_payload_bytes (byte_len p))
          "SQLite snapshot payload exceeds 16777216 bytes" (ok p) checked in
      let q : p ≡ payload = cc in
      (
        n,
        valid,
        rw (← q) (
            rw (first_check p ((f n valid).fills p wrote), small, (f n valid).reads p wrote)
              (validate_snapshot_idem s valid)),
        rw (← q) (ground arith),
      )

kind_less-asym :
    (k l : MetricKind) (p q : Bool)
    → (p ≡ true → q ≡ false)
    → kind_less k l p ≡ true
    → kind_less l k q ≡ false
kind_less-asym metric_kind_observation metric_kind_observation p q f h = f h
kind_less-asym metric_kind_observation metric_kind_delta p q f h = refl
kind_less-asym metric_kind_delta metric_kind_observation p q f h = cc
kind_less-asym metric_kind_delta metric_kind_delta p q f h = f h

kind_less-cotrans :
    (k l m : MetricKind) (p q r : Bool)
    → (p ≡ false → q ≡ false → r ≡ false)
    → kind_less l k p ≡ false
    → kind_less m l q ≡ false
    → kind_less m k r ≡ false
kind_less-cotrans metric_kind_observation metric_kind_observation metric_kind_observation p q r f h
      k =
    f h k
kind_less-cotrans metric_kind_observation metric_kind_observation metric_kind_delta p q r f h k =
    refl
kind_less-cotrans metric_kind_observation metric_kind_delta metric_kind_observation p q r f h k = cc
kind_less-cotrans metric_kind_observation metric_kind_delta metric_kind_delta p q r f h k = refl
kind_less-cotrans metric_kind_delta metric_kind_observation m p q r f h k = cc
kind_less-cotrans metric_kind_delta metric_kind_delta metric_kind_observation p q r f h k = cc
kind_less-cotrans metric_kind_delta metric_kind_delta metric_kind_delta p q r f h k = f h k

module _ {M : Type 0} where
  kind_less-IsWeakOrder :
      (less : TrendMetric M → TrendMetric M → Bool)
      → IsWeakOrder less
      → IsWeakOrder (λ a b. kind_less a.metric_kind b.metric_kind (less a b))
  kind_less-IsWeakOrder less w = record {
    asym = λ a b h. kind_less-asym a.metric_kind b.metric_kind (less a b) (less b a) (w.asym a b) h;
    cotrans = λ a b c h k.
        kind_less-cotrans a.metric_kind b.metric_kind c.metric_kind (less b a) (less c b) (less c a)
          (w.cotrans a b c) h k;
  }

metric_less-IsWeakOrder : {M : Type 0} → IsWeakOrder (metric_less {N = M})
metric_less-IsWeakOrder {M} =
    kind_less-IsWeakOrder
      (less_by (λ m. m.signal_key) (less_by (λ m. m.object_kind) (less_on (λ m. m.object_id))))
      (less_by-IsWeakOrder (λ m. m.signal_key)
        (less_by (λ m. m.object_kind) (less_on (λ m. m.object_id)))
        (less_by-IsWeakOrder (λ m. m.object_kind) (less_on (λ m. m.object_id))
          (less_on-IsWeakOrder (λ m. m.object_id))))

module _ {N : Type 0} where
  length-delta_rows :
      (id : String) (deltas : List (Delta N)) → length (delta_rows id deltas) ≡ length deltas
  unfolding delta_rows
  length-delta_rows id [] = refl
  length-delta_rows id (delta ∷ deltas) = omega (arith, length-delta_rows id deltas)

  length-add_number :
      (id : String) (observation : Observation N) (number : Option N) (rows : List (TrendMetric N))
      → length (add_number id observation number rows)
        ≡ (if has_number number then suc (length rows) else length rows)
  length-add_number id observation none rows = refl
  length-add_number id observation (some number) rows = refl

  length-metric_rows :
      (id : String) (observations : List (Observation N)) (deltas : List (Delta N))
      → length (metric_rows id observations deltas)
        ≡ numeric_observations observations + length deltas
  unfolding metric_rows numeric_observations
  length-metric_rows id [] deltas = omega (arith, length-delta_rows id deltas)
  length-metric_rows id (observation ∷ rest) deltas = ground (
    arith,
    length-add_number id observation observation.number (metric_rows id rest deltas),
    length-metric_rows id rest deltas,
  )

  -- The rows of metrics are one for each number that was observed and one for each delta, at most as
  -- many as the budget, and sorted: observations first, then by signal and object.
  pub extract_trend_metrics-IsSorted :
      (s : Snapshot N) (rows : List (TrendMetric N))
      → extract_trend_metrics s ≡ ok rows
      → (length rows ≤ max_trend_metric_rows)
        × (length rows ≡ numeric_observations s.observations + length s.deltas)
        × IsSorted metric_less rows
  unfolding extract_trend_metrics
  extract_trend_metrics-IsSorted s rows h =
      let all_rows = metric_rows s.id s.observations s.deltas in
      let (few, same) =
        fail_if-eq-ok
          (ltb max_trend_metric_rows (numeric_observations s.observations + length s.deltas)) _
          (ok (sort metric_less all_rows)) h in
      let sorted : sort metric_less all_rows ≡ rows = cc in
      let size =
        length-sort metric_less all_rows ∙ length-metric_rows s.id s.observations s.deltas in
      rw (← sorted)
        (rw size (ground arith), size, sort-IsSorted metric_less metric_less-IsWeakOrder all_rows)
