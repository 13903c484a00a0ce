-- ===== src/Sqlite/Store/Invariant.antt =====
-- A save keeps a database a representation of snapshots.
use dbprobe.Base.{String, true, List, [], ◌∷◌, ◌++◌, ◌≡◌, ap, sym, subst, ◌∙◌, ◌⊎◌, inl, inr, arith}
use mathlib.Core.List.{map-append}
use dbprobe.Base.Lists.{All-append}
use dbprobe.Base.Outcome.{ok_inj, ok, >>=-eq-ok}
use dbprobe.Sdk.Clock.{Time, utc}
use dbprobe.Sqlite.Codec.{
  Json, TrendMetric, validate_snapshot, encode_snapshot, decode_snapshot, extract_trend_metrics,
}
use dbprobe.Sqlite.Codec.Laws.{
  IsFaithful, validate_snapshot-new, validate_snapshot_idem, decode_snapshot-encode_snapshot,
}
use dbprobe.Sqlite.Database.{Row, Database}
use dbprobe.Sqlite.Store.{Faults, row_of, prepare, save}
use dbprobe.Sqlite.Store.Atomic.{save_atomic}
use dbprobe.Sqlite.Store.Represents.{in_range, entry_row, Represents}
use dbprobe.Temporal.Snapshot.{Hash, Snapshot, new_snapshot, input_of}

in_range-utc : (t u : Time) → u ≡ utc t → in_range t ≡ true → in_range u ≡ true
unfolding utc
in_range-utc t u e h = rw e h

module _ {N : Type 0} (hash : Hash) (json : Json N) where
  -- JSON can be read back for the snapshot that a save validates.
  abbrev pub IsReadable : Snapshot N → Type 0
  IsReadable s = (n : Snapshot N) → validate_snapshot hash json s ≡ ok n → IsFaithful hash json n

  new_snapshot-time :
      (s : Snapshot N) {n : Snapshot N}
      → new_snapshot hash (input_of s) ≡ ok n
      → n.collected_at ≡ utc s.collected_at
  unfolding new_snapshot utc
  new_snapshot-time s h = ground arith

  -- the entry that a save writes
  prepare-entry :
      (s : Snapshot N) (row : Row) (trends : List (TrendMetric N))
      → IsReadable s
      → in_range s.collected_at ≡ true
      → prepare hash json s ≡ ok (row, trends)
      → (e : Snapshot N × String) × (row ≡ entry_row e)
        × (validate_snapshot hash json s ≡ ok e.0)
        × (decode_snapshot hash json e.1 ≡ ok e.0)
        × (in_range e.0.collected_at ≡ true)
  unfolding prepare
  prepare-entry s row trends f within h =
      let (n, valid, h1) = >>=-eq-ok (validate_snapshot hash json s) _ h in
      let (payload, encoded, h2) = >>=-eq-ok (encode_snapshot hash json n) _ h1 in
      let (rows, _, h3) = >>=-eq-ok (extract_trend_metrics n) _ h2 in
      let (m, again, decoded, _) =
        decode_snapshot-encode_snapshot hash json n payload
          (λ k again.
            let e : n ≡ k = ok_inj (sym (validate_snapshot_idem hash json s valid) ∙ again) in
            subst (λ o. IsFaithful hash json o) e (f n valid))
          encoded in
      let same : ok n ≡ ok m = sym (validate_snapshot_idem hash json s valid) ∙ again in
      let written : row ≡ row_of n payload = cc in
      (
        (n, payload),
        written,
        valid,
        decoded ∙ sym same,
        in_range-utc s.collected_at n.collected_at
            (new_snapshot-time s (validate_snapshot-new hash json s valid)) within,
      )

  add-Represents :
      (entries : List (Snapshot N × String)) (db : Database N) (e : Snapshot N × String)
      (trends : List (TrendMetric N))
      → Represents hash json entries db
      → decode_snapshot hash json e.1 ≡ ok e.0
      → in_range e.0.collected_at ≡ true
      → Represents hash json
          (entries ++ (e ∷ []))
          (record { snapshots = db.snapshots ++ (entry_row e ∷ []); trend_metrics = trends })
  add-Represents entries db e trends r d within = record {
    rows = ap (λ l. l ++ (entry_row e ∷ [])) r.rows ∙ sym (map-append entry_row entries (e ∷ []));
    reads =
        All-append (λ x. decode_snapshot hash json x.1 ≡ ok x.0) entries (e ∷ []) r.reads (d, tt);
    ranges =
        All-append (λ x. in_range x.0.collected_at ≡ true) entries (e ∷ []) r.ranges (within, tt);
  }

  -- Suppose that `json.Unmarshal` reads back what `json.Marshal` writes of the validated snapshot, and
  -- that this is not empty. Then, whatever calls of the driver fail, a save of a snapshot of a time
  -- between the years 1678 and 2262 into a database that represents some snapshots of such times, each
  -- in a row with its own columns and a payload that decodes to it, leaves one that represents these
  -- snapshots, or these and the validated one.
  pub save-Represents :
      (faults : Faults) (entries : List (Snapshot N × String)) (db : Database N) (s : Snapshot N)
      → Represents hash json entries db
      → IsReadable s
      → in_range s.collected_at ≡ true
      → Represents hash json entries (save hash json faults db s).0
        ⊎ ((e : Snapshot N × String) × (validate_snapshot hash json s ≡ ok e.0)
            × Represents hash json (entries ++ (e ∷ [])) (save hash json faults db s).0)
  save-Represents faults entries db s r f within = elim (save_atomic hash json faults db s) [
    | inl (message, same) ↦ inl (rw same r)
    | inr (row, trends, after, done, made, written) ↦ elim written [
      | inl (stored, same) ↦ inl (rw (done, same) r)
      | inr (fresh, added) ↦
          let (e, is_row, valid, decoded, ranged) = prepare-entry s row trends f within made in
          inr (e, valid, rw (done, added, is_row) (add-Represents entries db e _ r decoded ranged))
    ]
  ]
