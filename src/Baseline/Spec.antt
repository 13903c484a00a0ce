-- ===== src/Baseline/Spec.antt =====
-- internal/core/temporal/store.go: what a store answers about the snapshots that it holds for a
-- target, in terms of nothing but that collection.
use mathlib.Core.List.{Mem, Perm}
use mathlib.Core.List.Perm
use dbprobe.Base.{String, ℕ, ◌≢◌, [], nat_eq, Bool, true, false, List, ◌≡◌, arith, if◌then◌else◌}
use dbprobe.Base.Lists.{take}
use dbprobe.Base.Outcome.{Outcome, ok, err}
use dbprobe.Base.Sort.{IsWeakOrder, IsSorted}
use dbprobe.Base.Text.{str_lt, str_lt-asym, str_lt-cotrans}
use dbprobe.Sdk.Clock.{after, same_instant}
use dbprobe.Temporal.Snapshot.{Snapshot}

abbrev pub err_snapshot_not_found : String
err_snapshot_not_found = "snapshot not found"

module _ {N : Type 0} where
  -- newest first, and of one instant the largest identity first
  unfoldable pub newest_first : Snapshot N → Snapshot N → Bool
  unfolding same_instant after
  newest_first a b =
      if same_instant a.collected_at b.collected_at
      then str_lt b.id a.id
      else after a.collected_at b.collected_at

  pub newest_first-IsWeakOrder : IsWeakOrder newest_first
  unfolding newest_first
  newest_first-IsWeakOrder = record {
    asym = λ a b h. ground (arith, str_lt-asym b.id a.id);
    cotrans = λ a b c h k. ground (arith, str_lt-cotrans c.id b.id a.id);
  }

  -- `s` is one of the snapshots that pass the test, and none of these is newer.
  pub record IsNewest (test : Snapshot N → Bool) (held : List (Snapshot N)) (s : Snapshot N)
      : Type 0 where
    pub held_one : Mem s held
    pub passes : test s ≡ true
    pub newest : (o : Snapshot N) → Mem o held → test o ≡ true → newest_first o s ≡ false

  -- A query for one snapshot: the newest that passes the test, or "not found" if none does.
  abbrev pub Answers : (Snapshot N → Bool) → List (Snapshot N) → Outcome (Snapshot N) → Type 0
  Answers test held (ok s) = IsNewest test held s
  Answers test held (err e) =
      (e ≡ err_snapshot_not_found) × ((o : Snapshot N) → Mem o held → test o ≡ false)

  -- A query for several: the first `limit` of what is held, newest first, where 0 sets no limit.
  abbrev pub Lists : ℕ → List (Snapshot N) → Outcome (List (Snapshot N)) → Type 0
  Lists limit held (ok out) =
      (whole : List (Snapshot N)) × IsSorted newest_first whole
      × Perm whole held
      × (out ≡ (if nat_eq limit 0 then whole else take limit whole))
      × (out ≢ [])
  Lists limit held (err e) = (e ≡ err_snapshot_not_found) × (held ≡ [])

  -- The answer depends on nothing but which snapshots are held.
  pub Answers-perm :
      (test : Snapshot N → Bool) {l held : List (Snapshot N)} (r : Outcome (Snapshot N))
      → Perm l held
      → Answers test l r
      → Answers test held r
  Answers-perm test (ok s) p a = record {
    held_one = (Perm.mem_iff p).0 a.held_one;
    passes = a.passes;
    newest = λ o m. a.newest o ((Perm.mem_iff p).1 m);
  }
  Answers-perm test (err e) p a = (a.0, λ o m. a.1 o ((Perm.mem_iff p).1 m))
