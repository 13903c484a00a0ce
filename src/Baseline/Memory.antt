-- ===== src/Baseline/Memory.antt =====
-- internal/platform/baseline/memory.go: the store in memory. The mutex makes each method one step.
pub mod Laws
pub mod Queries
use dbprobe.Base.{
  String, ℕ, zero, suc, Option, none, some, Bool, true, false, not, ◌&&◌, ◌||◌, List, [], ◌∷◌, ◌==◌,
  if◌then◌else◌, map, ltb, nat_eq,
}
use dbprobe.Base.GoMap.{GoMap, lookup, insert}
use dbprobe.Base.Lists.{take, length}
use dbprobe.Base.Outcome.{Outcome, ok, err, ◌>>=◌}
use dbprobe.Base.Sort.{sort}
use dbprobe.Baseline.Spec.{err_snapshot_not_found, newest_first}
use dbprobe.Sdk.Clock.{Time, is_zero, before}
use dbprobe.Temporal.Snapshot.{Hash, Snapshot, new_snapshot, input_of}

pub record Memory (N : Type 0) : Type 0 where
  pub targets : GoMap (GoMap (Snapshot N))

abbrev pub new_memory : {N : Type 0} → Memory N
new_memory = record { targets = [] }

module _ {N : Type 0} where
  -- a read of a missing key of `targets` gives a nil map, which is empty
  unfoldable pub by_id : Memory N → String → GoMap (Snapshot N)
  by_id m target = elim (lookup m.targets target) [ none ↦ [] | some held ↦ held ]

  unfoldable pub held_for : Memory N → String → List (Snapshot N)
  unfolding by_id
  held_for m target = map (λ e. e.1) (by_id m target)

  -- the sort that ends `list`, after its check for an empty map
  unfoldable pub sort_items : List (Snapshot N) → Outcome (List (Snapshot N))
  sort_items [] = err err_snapshot_not_found
  sort_items (x ∷ xs) = ok (sort newest_first (x ∷ xs))

  unfoldable pub list_sorted : Memory N → String → Outcome (List (Snapshot N))
  unfolding held_for sort_items
  list_sorted m target = sort_items (held_for m target)

  -- the critical section of `Save`
  unfoldable pub put_snapshot : Memory N → Snapshot N → Snapshot N → Memory N
  unfolding by_id
  put_snapshot m snapshot copy = elim (lookup (by_id m snapshot.target_fingerprint) snapshot.id) [
    | some _ ↦ m
    | none ↦ record {
      targets =
          insert snapshot.target_fingerprint
            (insert snapshot.id copy (by_id m snapshot.target_fingerprint)) m.targets;
    }
  ]

  unfoldable pub save_copy :
      Memory N → Snapshot N → Outcome (Snapshot N) → Memory N × Outcome (Unit {0})
  unfolding put_snapshot
  save_copy m snapshot (err e) = (m, err e)
  save_copy m snapshot (ok copy) = (put_snapshot m snapshot copy, ok tt)

module _ {N : Type 0} (hash : Hash) where
  unfoldable pub clone_snapshot : Snapshot N → Outcome (Snapshot N)
  clone_snapshot snapshot = new_snapshot hash (input_of snapshot)

  unfoldable pub save : Memory N → Snapshot N → Memory N × Outcome (Unit {0})
  unfolding save_copy
  save m snapshot =
      if (snapshot.id == "") || (snapshot.target_fingerprint == "") || is_zero snapshot.collected_at
      then (m, err "invalid snapshot")
      else save_copy m snapshot (clone_snapshot snapshot)

  -- `items[0]`: `list_sorted` never returns an empty list
  unfoldable pub first_copy : List (Snapshot N) → Outcome (Snapshot N)
  unfolding clone_snapshot
  first_copy [] = err "index out of range"
  first_copy (item ∷ items) = clone_snapshot item

  unfoldable pub latest : Memory N → String → Outcome (Snapshot N)
  unfolding list_sorted first_copy
  latest m target = do items ← list_sorted m target; first_copy items

  -- the loop of `Previous`
  unfoldable pub first_before : Time → List (Snapshot N) → Outcome (Snapshot N)
  unfolding clone_snapshot
  first_before at [] = err err_snapshot_not_found
  first_before at (item ∷ items) =
      let rest = first_before at items in
      if before item.collected_at at then clone_snapshot item else rest

  unfoldable pub previous : Memory N → String → Time → Outcome (Snapshot N)
  unfolding list_sorted first_before
  previous m target at = do items ← list_sorted m target; first_before at items

  unfoldable pub copy_all : List (Snapshot N) → Outcome (List (Snapshot N))
  unfolding clone_snapshot
  copy_all [] = ok []
  copy_all (item ∷ items) = do copy ← clone_snapshot item; out ← copy_all items; ok (copy ∷ out)

  -- A limit of 0 or less is `zero`.
  unfoldable pub list : Memory N → String → ℕ → Outcome (List (Snapshot N))
  unfolding list_sorted copy_all
  list m target limit = do
    items ← list_sorted m target
    copy_all
        (take (if nat_eq limit 0 || ltb (length items) limit then length items else limit) items)
