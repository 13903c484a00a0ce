-- ===== src/Inspect/History/Laws.antt =====
-- An inspection that saw everything is in the history afterwards.
use dbprobe.Base.{String, none, some, [], ◌≡◌, ◌≢◌, ◌∙◌, refl, ap, sym, eq_refl}
use dbprobe.Base.GoMap.{lookup}
use dbprobe.Base.Outcome.{Outcome, ok, err}
use dbprobe.Baseline.Memory.{Memory, by_id, save, clone_snapshot}
use dbprobe.Baseline.Memory.Laws.{IsNamed, keep_or, lookup-save}
use dbprobe.Inspect.History.{
  Report, report_input, after_save, save_made, persist_in, keep_store, persist_history,
}
use dbprobe.Temporal.Snapshot.{Hash, Snapshot, new_snapshot, snapshot_id}
use dbprobe.Temporal.Snapshot.Laws.{
  IsComplete, new_snapshot-ok_iff, new_snapshot-IsMadeFrom, new_snapshot_idem,
}

after_save-ok : {S : Type 0} (r : S × Outcome (Unit {0})) → r.1 ≡ ok tt → after_save r ≡ (r.0, none)
unfolding after_save
after_save-ok (store, ok done) h = refl
after_save-ok (store, err e) h = cc

module _ {N : Type 0} (hash : Hash) (filled : (text : String) → hash.digest text ≢ "") where
  made-IsNamed :
      (report : Report N) (version : String) {s : Snapshot N}
      → new_snapshot hash (report_input report version) ≡ ok s
      → IsNamed hash s
  unfolding snapshot_id
  made-IsNamed report version {s} h =
      let made = new_snapshot-IsMadeFrom hash (report_input report version) h in
      (λ e. filled _ (sym made.identity ∙ e), made.named.0, made.dated)

  made-clone :
      (report : Report N) (version : String) {s : Snapshot N}
      → new_snapshot hash (report_input report version) ≡ ok s
      → clone_snapshot hash s ≡ ok s
  unfolding clone_snapshot
  made-clone report version h = new_snapshot_idem hash (report_input report version) h

  persist_history-ok :
      (m : Memory N) (report : Report N) (version : String) {s : Snapshot N}
      → report.warnings ≡ []
      → new_snapshot hash (report_input report version) ≡ ok s
      → (save hash m s).1 ≡ ok tt
      → persist_history hash (save hash) (some m) report version ≡ (some (save hash m s).0, none)
  unfolding persist_history keep_store persist_in save_made
  persist_history-ok m report version {s} clean h saved =
      ap (λ w. keep_store (persist_in hash (save hash) m report version w)) clean
      ∙ ap keep_store (kept ∙ after_save-ok (save hash m s) saved)
    where
      kept : persist_in hash (save hash) m report version [] ≡ after_save (save hash m s)
      kept = ap (save_made hash (save hash) m) h

  -- If a digest is never empty, then a report with no warnings, of a target with a fingerprint, an
  -- engine, an adapter and a time, is persisted in the store in memory: there is a snapshot of it, no
  -- warning is given, and the store has under its target and identity what it had there before, or
  -- else that snapshot.
  pub persist_history_saved :
      (m : Memory N) (report : Report N) (version : String)
      → report.warnings ≡ []
      → IsComplete hash (report_input report version)
      → (s : Snapshot N) × (m' : Memory N) × (new_snapshot hash (report_input report version)
          ≡ ok s)
        × (persist_history hash (save hash) (some m) report version ≡ (some m', none))
        × (lookup (by_id m' s.target_fingerprint) s.id
            ≡ keep_or hash (lookup (by_id m s.target_fingerprint) s.id) s)
  unfolding persist_history
  persist_history_saved m report version clean complete =
      let (s, h) = (new_snapshot-ok_iff hash (report_input report version)).1 complete in
      let saving =
        lookup-save hash m s (made-IsNamed report version h) (made-clone report version h) in
      (
        s,
        (save hash m s).0,
        h,
        persist_history-ok m report version clean h saving.0,
        saving.1 s.target_fingerprint s.id ∙ rw (eq_refl s.target_fingerprint, eq_refl s.id) refl,
      )
