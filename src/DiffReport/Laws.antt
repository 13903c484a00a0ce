-- ===== src/DiffReport/Laws.antt =====
-- The report over the store in memory: the comparison never fails.
use mathlib.Core.Bool.{Bool-set}
use mathlib.Core.List.{Mem, mem-cons, not-mem-nil}
use mathlib.Core.Logic.Or
use dbprobe.Base.{
  String, Option, some, Bool, true, false, List, [], ◌∷◌, ◌==◌, ◌≡◌, ◌≢◌, ◌∙◌, ap, sym, refl, arith,
  eq_iff,
}
use dbprobe.Base.Lists.{All}
use dbprobe.Base.Outcome.{Outcome, ok, err, ◌>>=◌}
use dbprobe.Baseline.Memory.{Memory, held_for, latest, previous}
use dbprobe.Baseline.Memory.Laws.{IsValid, held-own}
use dbprobe.Baseline.Memory.Queries.{latest-Answers, previous-Answers}
use dbprobe.Baseline.Spec.{IsNewest, Answers, err_snapshot_not_found}
use dbprobe.DiffReport.{DiffReport, StoreReader, report_between, run}
use dbprobe.Sdk.Clock.{before}
use dbprobe.Sdk.Number.{Float64}
use dbprobe.Temporal.Diff.Expected.{SameTarget, expected_changes, compare-eq-expected}
use dbprobe.Temporal.Regression.{MetricPair}
use dbprobe.Temporal.Snapshot.{Hash, Snapshot}

All-at :
    {A : Type 0} (test : A → Bool) (l : List A) {x : A}
    → All (λ y. test y ≡ true) l
    → Mem x l
    → test x ≡ true
All-at test [] h m = absurd (not-mem-nil m)
All-at test (y ∷ l) {x} h m =
    Or.elim (Bool-set (test x) true) (mem-cons.0 m) (λ e. ap test e ∙ h.0)
      (λ r. All-at test l h.1 r)

abbrev pub memory_reader : {N : Type 0} → Hash → Memory N → StoreReader N
memory_reader hash m = record { latest = latest hash m; previous = previous hash m }

module _ {N : Type 0} ⦃f : Float64 N⦄ where
  -- A report about the newest snapshot and the newest one from before its time.
  pub record IsReportOn (held : List (Snapshot N)) (r : DiffReport N) (p c : Snapshot N)
      : Type 0 where
    pub current : IsNewest (λ s. true) held c
    pub previous : IsNewest (λ s. before s.collected_at c.collected_at) held p
    pub ids : (r.previous_snapshot_id ≡ p.id) × (r.current_snapshot_id ≡ c.id)
    pub changes : r.changes ≡ expected_changes p.observations c.observations

  -- The report, or "not found".
  abbrev pub Reported : List (Snapshot N) → Outcome (DiffReport N) → Type 0
  Reported held (ok r) = (p : Snapshot N) × (c : Snapshot N) × IsReportOn held r p c
  Reported held (err e) = e ≡ err_snapshot_not_found

  module _ (target : String) (named : target ≢ "") (metrics : Option MetricPair)
      (held : List (Snapshot N))
      (own : All (λ s. (s.target_fingerprint == target) ≡ true) held) where
    same_target : (p c : Snapshot N) → Mem p held → Mem c held → SameTarget p c
    same_target p c mp mc =
        let ep =
          (eq_iff p.target_fingerprint target).0
            (All-at (λ s. s.target_fingerprint == target) held own mp) in
        let ec =
          (eq_iff c.target_fingerprint target).0
            (All-at (λ s. s.target_fingerprint == target) held own mc) in
        record { named = λ e. named (sym ep ∙ e); shared = ep ∙ sym ec }

    between-Reported :
        (c : Snapshot N) (r : Outcome (Snapshot N))
        → IsNewest (λ s. true) held c
        → Answers (λ s. before s.collected_at c.collected_at) held r
        → Reported held (r >>= λ p. report_between target metrics p c)
    unfolding report_between
    between-Reported c (err e) n a = a.0
    between-Reported c (ok p) n a =
        rw (compare-eq-expected p c (same_target p c a.held_one n.held_one))
          (p, c, record { current = n; previous = a; ids = (refl, refl); changes = refl })

    latest-Reported :
        (find : Snapshot N → Outcome (Snapshot N)) (r : Outcome (Snapshot N))
        → Answers (λ s. true) held r
        → ((c : Snapshot N) → Answers (λ s. before s.collected_at c.collected_at) held (find c))
        → Reported held (r >>= λ c. find c >>= λ p. report_between target metrics p c)
    latest-Reported find (err e) a h = a.0
    latest-Reported find (ok c) a h = between-Reported c (find c) a (h c)

  -- Over a store in memory that satisfies its invariant, for a target with a fingerprint, the service
  -- either reports on the newest snapshot of the target and the newest one from before its time, with
  -- the changes between their observations, or fails with "not found"; the comparison never fails.
  pub run-Reported :
      (hash : Hash) {m : Memory N}
      → IsValid hash m
      → (target : String) → target ≢ ""
      → (metrics : Option MetricPair)
      → Reported (held_for m target) (run (some (memory_reader hash m)) target metrics)
  unfolding run
  run-Reported hash {m} v target named metrics =
      let open_ : (target == "") ≡ false = ground (arith, eq_iff target "") in
      rw open_ (
        latest-Reported target named metrics (held_for m target) (held-own hash target v)
          (λ c. previous hash m target c.collected_at) (latest hash m target)
          (latest-Answers hash v target) (λ c. previous-Answers hash v target c.collected_at))
