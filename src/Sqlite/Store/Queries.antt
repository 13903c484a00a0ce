-- ===== src/Sqlite/Store/Queries.antt =====
-- The queries of the store answer as the specification of a store says.
use mathlib.Core.Bool.{Bool-set}
use mathlib.Core.List.{Mem, Perm, Pairwise, mem-cons, mem-cons_self, not-mem-nil}
use mathlib.Core.List.Perm
use mathlib.Core.Logic.Or
use dbprobe.Base.{
  ltb, String, none, Bool, true, false, ◌&&◌, List, [], ◌∷◌, ◌==◌, ◌≡◌, refl, ap, sym, ◌∙◌, inl,
  inr, arith, Bool-cases, map, eq_refl,
}
use dbprobe.Base.Lists.{All, filter, All-filter_of_All, All-filter}
use dbprobe.Base.Members.{All-Mem, Mem-map, mem-map, mem-filter, mem_of_mem-filter}
use dbprobe.Base.Outcome.{ok}
use dbprobe.Base.Sort.{sort, IsWeakOrder, IsSorted, sort-perm, sort-IsSorted, All-sort}
use dbprobe.Baseline.Spec.{newest_first, Answers}
use dbprobe.Sdk.Clock.{Time, is_zero, utc, before}
use dbprobe.Sqlite.Codec.{Json, decode_snapshot}
use dbprobe.Sqlite.Database.{
  unix_nano, Row, Database, row_newest, select, first_row, of_target, of_target_before,
  latest_snapshot, previous_snapshot,
}
use dbprobe.Sqlite.Store.{
  no_faults, scan_row, scan_stored_snapshot, envelope_differs, with_conn, latest, previous,
}
use dbprobe.Sqlite.Store.Represents.{
  sort-map, filter-map, unix_nano_lem, in_range, row_newest-IsWeakOrder, entry_row,
  row_newest-newest_first, Represents, is_of, stored_for,
}
use dbprobe.Temporal.Snapshot.{Hash, Snapshot}

before_lem :
    (t at : Time)
    → in_range t ≡ true
    → in_range at ≡ true
    → ltb (unix_nano t) (unix_nano (utc at)) ≡ before t at
unfolding before utc
before_lem t at ht ha =
    rw (unix_nano_lem t ht, unix_nano_lem (record at { zone = "UTC" }) ha) (ground arith)

module _ {N : Type 0} (hash : Hash) (json : Json N) (entries : List (Snapshot N × String))
    (db : Database N) (r : Represents hash json entries db) where
  newer : Snapshot N × String → Snapshot N × String → Bool
  newer a b = row_newest (entry_row a) (entry_row b)

  newer-IsWeakOrder : IsWeakOrder newer
  unfolding newer
  newer-IsWeakOrder = record {
    asym = λ a b. row_newest-IsWeakOrder.asym (entry_row a) (entry_row b);
    cotrans = λ a b c. row_newest-IsWeakOrder.cotrans (entry_row a) (entry_row b) (entry_row c);
  }

  range_of : (e : Snapshot N × String) → Mem e entries → in_range e.0.collected_at ≡ true
  range_of = All-Mem (λ e. Bool-set (in_range e.0.collected_at) true) entries r.ranges

  envelope_lem :
      (target : String) (e : Snapshot N × String)
      → is_of target e ≡ true
      → envelope_differs hash json target (entry_row e) e.0 ≡ false
  envelope_lem target e h = ground (
    arith,
    eq_refl e.0.target_fingerprint,
    eq_refl e.0.id,
    eq_refl e.0.engine,
    eq_refl e.0.adapter_id,
    eq_refl e.0.adapter_version,
    eq_refl e.0.schema_version,
  )

  scan_entry :
      (target : String) (e : Snapshot N × String)
      → is_of target e ≡ true
      → decode_snapshot hash json e.1 ≡ ok e.0
      → scan_row hash json none target (entry_row e) ≡ ok e.0
  unfolding scan_row
  scan_entry target e h d = rw (d, envelope_lem target e h) refl

  module _ (target : String) (test : Snapshot N → Bool) (where_clause : Row → Bool)
      (agree : (e : Snapshot N × String)
        → Mem e entries
        → where_clause (entry_row e) ≡ (is_of target e && test e.0)) where
    picked : List (Snapshot N × String)
    picked = filter (λ e. where_clause (entry_row e)) entries

    select-entries : select where_clause db ≡ map entry_row (sort newer picked)
    unfolding select newer picked
    select-entries =
        ap (λ l. sort row_newest (filter where_clause l)) r.rows
        ∙ ap (sort row_newest) (filter-map entry_row where_clause entries)
        ∙ sort-map entry_row row_newest (filter (λ e. where_clause (entry_row e)) entries)

    picked_passes :
        (e : Snapshot N × String)
        → Mem e entries
        → where_clause (entry_row e) ≡ true
        → (is_of target e ≡ true) × (test e.0 ≡ true)
    picked_passes e m h = let same = agree e m in (ground arith, ground arith)

    mem-picked :
        (e : Snapshot N × String)
        → Mem e (filter (is_of target) entries)
        → test e.0 ≡ true
        → Mem e picked
    unfolding picked
    mem-picked e m t =
        let inside = mem_of_mem-filter (is_of target) e entries m in
        let ours : is_of target e ≡ true =
          All-Mem (λ x. Bool-set (is_of target x) true) (filter (is_of target) entries)
            (All-filter (is_of target) entries) e m in
        let same = agree e inside in
        mem-filter (λ x. where_clause (entry_row x)) e entries inside (ground arith)

    picked-stored :
        (e : Snapshot N × String)
        → Mem e picked
        → Mem e entries × (where_clause (entry_row e) ≡ true)
    unfolding picked
    picked-stored e m = (
      mem_of_mem-filter (λ x. where_clause (entry_row x)) e entries m,
      All-Mem (λ x. Bool-set (where_clause (entry_row x)) true) picked
          (All-filter (λ x. where_clause (entry_row x)) entries) e m,
    )

    newer_irrefl : (e : Snapshot N × String) → newer e e ≡ false
    newer_irrefl e = elim (Bool-cases (newer e e)) [
      | inl h ↦ newer-IsWeakOrder.asym e e h
      | inr h ↦ h
    ]

    picked_range : (e : Snapshot N × String) → Mem e picked → in_range e.0.collected_at ≡ true
    picked_range e m = range_of e (picked-stored e m).0

    -- the head of the sorted rows is the newest entry that passes
    head_newest :
        (x : Snapshot N × String) (xs : List (Snapshot N × String))
        → IsSorted newer (x ∷ xs)
        → Perm (x ∷ xs) picked
        → (e : Snapshot N × String) → Mem e picked
        → newest_first e.0 x.0 ≡ false
    unfolding newer
    head_newest x xs (Pairwise.cons above s) p e m =
        let head = (Perm.mem_iff p).0 mem-cons_self in
        sym (row_newest-newest_first e x (picked_range e m) (picked_range x head))
        ∙ Or.elim (Bool-set (newer e x) false) (mem-cons.0 ((Perm.mem_iff p).1 m))
            (λ q. rw q (newer_irrefl x)) (λ t. above e t)

    answer :
        (xs : List (Snapshot N × String))
        → IsSorted newer xs
        → Perm xs picked
        → All (λ e. decode_snapshot hash json e.1 ≡ ok e.0) xs
        → Answers test
            (stored_for entries target)
            (scan_stored_snapshot hash json none target (first_row (map entry_row xs)))
    unfolding scan_stored_snapshot
    answer [] s p d = (
      refl,
      Mem-map (λ o. Bool-set (test o) false) (λ e. e.0) (filter (is_of target) entries)
          λ e m. elim (Bool-cases (test e.0)) [
            | inl t ↦ absurd (not-mem-nil ((Perm.mem_iff p).1 (mem-picked e m t)))
            | inr t ↦ t
          ],
    )
    answer (x ∷ xs) s p d =
        let head = (Perm.mem_iff p).0 mem-cons_self in
        let (inside, chosen) = picked-stored x head in
        let (ours, passing) = picked_passes x inside chosen in
        rw (scan_entry target x ours d.0) (record {
          held_one =
              mem-map (λ e. e.0) x (filter (is_of target) entries)
                (mem-filter (is_of target) x entries inside ours);
          passes = passing;
          newest =
              Mem-map (λ o. hlevel (Bool-set)) (λ e. e.0) (filter (is_of target) entries)
                λ e m t. head_newest x xs s p e (mem-picked e m t);
        })

    -- what a query for one row answers
    scan-Answers :
        Answers test
          (stored_for entries target)
          (scan_stored_snapshot hash json none target (first_row (select where_clause db)))
    unfolding picked
    scan-Answers = rw select-entries (
        answer (sort newer picked) (sort-IsSorted newer newer-IsWeakOrder picked)
          (sort-perm newer picked)
          (All-sort (λ e. decode_snapshot hash json e.1 ≡ ok e.0) newer picked
            (All-filter_of_All (λ e. decode_snapshot hash json e.1 ≡ ok e.0)
              (λ x. where_clause (entry_row x)) entries r.reads)))

  -- Of a database that represents snapshots of times between the years 1678 and 2262, for a target
  -- that is not empty, and when no call of the driver fails, `Latest` returns the newest snapshot of the
  -- target, or "not found" if there is none.
  pub latest-newest :
      (target : String)
      → (target == "") ≡ false
      → Answers (λ s. true) (stored_for entries target) (latest hash json no_faults db target)
  unfolding latest with_conn latest_snapshot
  latest-newest target given =
      rw given (scan-Answers target (λ s. true) (of_target target) (λ e m. ground arith))

  -- Of a database that represents snapshots of times between the years 1678 and 2262, for a target
  -- that is not empty and a time that is not zero and between these years, and when no call of the
  -- driver fails, `Previous` returns the newest snapshot of the target from before that time, or "not
  -- found" if there is none.
  pub previous-newest :
      (target : String) (at : Time)
      → (target == "") ≡ false
      → is_zero at ≡ false
      → in_range at ≡ true
      → Answers
          (λ s. before s.collected_at at)
          (stored_for entries target)
          (previous hash json no_faults db target at)
  unfolding previous with_conn previous_snapshot
  previous-newest target at given real within =
      rw (given, real)
        (scan-Answers target (λ s. before s.collected_at at)
          (of_target_before target (unix_nano (utc at)))
          (λ e m. rw (before_lem e.0.collected_at at (range_of e m) within) refl))
