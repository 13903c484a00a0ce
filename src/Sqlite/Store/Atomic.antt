-- ===== src/Sqlite/Store/Atomic.antt =====
-- A save does all of its writes or none.
use dbprobe.Base.{
  subst, ℕ, suc, String, Option, none, some, false, not, List, [], ◌∷◌, ◌++◌, ◌==◌, ◌≡◌, refl, ap,
  sym, ◌∙◌, ◌⊎◌, inl, inr, arith, Bool, true, Option-cases, Bool-cases, eq_iff,
}
use dbprobe.Base.Lists.{append-nil, append_assoc}
use dbprobe.Base.Outcome.{
  attempt, Outcome, ok, err, fail_if, wrap, >>=-eq-ok, wrap-eq-ok, Outcome-cases,
}
use dbprobe.Sqlite.Codec.{Json, TrendMetric}
use dbprobe.Sqlite.Database.{Row, Database, payload_by_id, has_id}
use dbprobe.Sqlite.Store.{
  Faults, call, stored_or, insert_snapshot, insert_trends, verify_existing, write_rows, finish_save,
  transaction, with_conn, prepare, save_prepared, save,
}
use dbprobe.Temporal.Snapshot.{Hash, Snapshot}

stored_or-eq-ok :
    (o : Option String) {payload : String} → stored_or o ≡ ok payload → o ≡ some payload
stored_or-eq-ok none h = cc
stored_or-eq-ok (some p) h = cc

passed : (test : Bool) (message : String) → fail_if test message ≡ ok tt → test ≡ false
passed true message h = cc
passed false message h = refl

module _ {N : Type 0} where
  -- What a save leaves when it succeeds: the row and all its metrics are added, or the same payload
  -- was stored before and nothing changes.
  abbrev pub Written : Row → List (TrendMetric N) → Database N → Database N → Type 0
  Written row trends db after =
      ((payload_by_id db.snapshots row.id ≡ some row.payload) × (after ≡ db))
      ⊎ ((has_id row.id db.snapshots ≡ false)
          × (after ≡ record {
            snapshots = db.snapshots ++ (row ∷ []);
            trend_metrics = db.trend_metrics ++ trends;
          }))

  insert_trends-ok :
      (faults : Faults) (i : ℕ) (trends : List (TrendMetric N)) (db : Database N)
      → (insert_trends faults i trends db).1 ≡ ok tt
      → (insert_trends faults i trends db).0
        ≡ record db { trend_metrics = db.trend_metrics ++ trends }
  unfolding insert_trends
  insert_trends-ok faults i [] db h =
      ap (λ l. record db { trend_metrics = l }) (sym (append-nil db.trend_metrics))
  insert_trends-ok faults i (trend ∷ trends) db h = elim (Option-cases (faults.trend i)) [
    | inr (message, e) ↦ absurd (let no = rw e at h in cc)
    | inl e ↦ rw e (
        insert_trends-ok faults (suc i) trends
          (record db { trend_metrics = db.trend_metrics ++ (trend ∷ []) }) (rw e at h)
        ∙ ap (λ l. record db { trend_metrics = l })
            (append_assoc db.trend_metrics (trend ∷ []) trends))
  ]

  verify_existing-ok :
      (faults : Faults) (row : Row) (db : Database N)
      → verify_existing faults row db ≡ ok tt
      → payload_by_id db.snapshots row.id ≡ some row.payload
  unfolding verify_existing
  verify_existing-ok faults row db h =
      let (_, _, h1) =
        >>=-eq-ok (wrap "verify existing SQLite snapshot: " (call faults.verify)) _ h in
      let (existing, read, h2) =
        >>=-eq-ok
          (wrap "verify existing SQLite snapshot: " (stored_or (payload_by_id db.snapshots row.id)))
          _ h1 in
      let same : not (existing == row.payload) ≡ false = passed _ _ h2 in
      let e : existing ≡ row.payload = ground (arith, eq_iff existing row.payload) in
      stored_or-eq-ok _ (wrap-eq-ok "verify existing SQLite snapshot: " _ read) ∙ ap some e

  -- If the statements of a transaction have all succeeded, what a save is to write is there.
  abbrev IsWritten :
      Row → List (TrendMetric N) → Database N → Database N × Outcome (Unit {0}) → Type 0
  IsWritten row trends db state = state.1 ≡ ok tt → Written row trends db state.0

  attempt-IsWritten :
      (row : Row) (trends : List (TrendMetric N)) (db : Database N) (check : Outcome (Unit {0}))
      (working : Database N) {rest : Database N × Outcome (Unit {0})}
      → IsWritten row trends db rest
      → IsWritten row trends db (attempt check working rest)
  attempt-IsWritten row trends db (ok done) working w = w
  attempt-IsWritten row trends db (err message) working w = λ h. cc

  module _ (faults : Faults) (row : Row) (trends : List (TrendMetric N)) (db : Database N) where
    abbrev sent : Outcome (Unit {0})
    sent = wrap "insert SQLite snapshot: " (call faults.insert)

    abbrev counted : Outcome (Unit {0})
    counted = wrap "read SQLite snapshot insert result: " (call faults.affected)

    abbrev added : Database N
    added = record db { snapshots = db.snapshots ++ (row ∷ []) }

    write_rows-held :
        has_id row.id db.snapshots ≡ true
        → write_rows faults row trends db
          ≡ attempt sent db (attempt counted db (db, verify_existing faults row db))
    unfolding write_rows insert_snapshot
    write_rows-held e = rw e refl

    write_rows-fresh :
        has_id row.id db.snapshots ≡ false
        → write_rows faults row trends db
          ≡ attempt sent db (attempt counted added (insert_trends faults 0 trends added))
    unfolding write_rows insert_snapshot
    write_rows-fresh e = rw e refl

    write_rows-IsWritten : IsWritten row trends db (write_rows faults row trends db)
    write_rows-IsWritten = elim (Bool-cases (has_id row.id db.snapshots)) [
      | inl e ↦ subst (IsWritten row trends db) (sym (write_rows-held e)) (
          attempt-IsWritten row trends db sent db (
            attempt-IsWritten row trends db counted db
              (λ h. inl (verify_existing-ok faults row db h, refl))))
      | inr e ↦ subst (IsWritten row trends db) (sym (write_rows-fresh e)) (
          attempt-IsWritten row trends db sent db (
            attempt-IsWritten row trends db counted added
              (λ h. inr (e, insert_trends-ok faults 0 trends added h))))
    ]

  -- A save that fails keeps the database; one that succeeds has written.
  abbrev Settled :
      Row → List (TrendMetric N) → Database N → Database N × Outcome (Unit {0}) → Type 0
  Settled row trends db result =
      ((message : String) × (result ≡ (db, err message)))
      ⊎ ((after : Database N) × (result ≡ (after, ok tt)) × Written row trends db after)

  attempt-Settled :
      (row : Row) (trends : List (TrendMetric N)) (db : Database N) (check : Outcome (Unit {0}))
      {rest : Database N × Outcome (Unit {0})}
      → Settled row trends db rest
      → Settled row trends db (attempt check db rest)
  attempt-Settled row trends db (ok done) s = s
  attempt-Settled row trends db (err message) s = inl (message, refl)

  finish_save-Settled :
      (faults : Faults) (row : Row) (trends : List (TrendMetric N)) (db : Database N)
      (state : Database N × Outcome (Unit {0}))
      → IsWritten row trends db state
      → Settled row trends db (finish_save faults db state)
  unfolding finish_save
  finish_save-Settled faults row trends db (working, err message) w = inl (message, refl)
  finish_save-Settled faults row trends db (working, ok done) w =
      attempt-Settled row trends db _ (inr (working, refl, w refl))

  transaction-Settled :
      (faults : Faults) (row : Row) (trends : List (TrendMetric N)) (db : Database N)
      → Settled row trends db (transaction faults row trends db)
  unfolding transaction
  transaction-Settled faults row trends db = attempt-Settled row trends db _ (
      finish_save-Settled faults row trends db (write_rows faults row trends db)
        (write_rows-IsWritten faults row trends db))

  module _ (hash : Hash) (json : Json N) (faults : Faults) (db : Database N)
      (snapshot : Snapshot N) where
    -- A save fails and leaves the database as it was, whichever call of the driver fails; or it
    -- succeeds, and then the snapshot is valid, and its row and all its metrics are added, or the same
    -- payload was stored under its identity before and nothing changes.
    pub save_atomic :
        ((message : String) × (save hash json faults db snapshot ≡ (db, err message)))
        ⊎ ((row : Row) × (trends : List (TrendMetric N)) × (after : Database N) × (save hash json
                faults db snapshot
              ≡ (after, ok tt))
            × (prepare hash json snapshot ≡ ok (row, trends))
            × Written row trends db after)
    unfolding save save_prepared
    save_atomic = elim (Outcome-cases (prepare hash json snapshot)) [
      | inr (message, e) ↦ rw e (inl (message, refl))
      | inl ((row, trends), e) ↦
          elim (attempt-Settled row trends db (with_conn faults (ok tt))
            (transaction-Settled faults row trends db)) [
              | inl (message, kept) ↦ inl (message, rw e kept)
              | inr (after, done, written) ↦ inr (row, trends, after, rw e done, e, written)
            ]
    ]
