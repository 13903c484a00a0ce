-- ===== src/Tests/Temporal.antt =====
-- Snapshots, their differences, query regressions and events, on the data of two inspections.
use mathlib.Core.List.{Permᴰ}
use mathlib.Core.List.Permᴰ
use dbprobe.Base.{ℕ, [], ◌∷◌, nat_eq, ◌≡◌, refl, eq_iff, arith, map}
use dbprobe.Base.GoMap.{insert}
use dbprobe.Base.Outcome.{ok}
use dbprobe.Base.Sort.{sort}
use dbprobe.Sdk.Capability.{add_all}
use dbprobe.Sdk.Clock.{utc, is_zero}
use dbprobe.Sdk.Number.{milli}
use dbprobe.Temporal.Snapshot.{
  Snapshot, new_snapshot, normalize_capabilities, clone_observations, clone_observation,
  clone_findings, snapshot_id,
}
use dbprobe.Temporal.Snapshot.Laws.{new_snapshot-IsMadeFrom, IsMadeFrom}
use dbprobe.Temporal.Diff.{Diff, compare, equal_ptr}
use dbprobe.Temporal.Diff.Expected.{compare-eq-expected, SameTarget, expected_changes}
use dbprobe.Temporal.Diff.Laws.{HasNoNaN, compare_swap, sides, sides_back}
use dbprobe.Temporal.Diff.Order.{compare_order}
use dbprobe.Tests.Data.{hash, earlier_input, later_input, earlier, later, counter}

-- a snapshot is made: the capabilities are sorted, the query text is left out
pub earlier_made : new_snapshot hash earlier_input ≡ ok earlier
unfolding new_snapshot normalize_capabilities clone_observations clone_observation clone_findings
    snapshot_id utc is_zero add_all insert sort
earlier_made = refl

pub later_made : new_snapshot hash later_input ≡ ok later
unfolding new_snapshot normalize_capabilities clone_observations clone_observation clone_findings
    snapshot_id utc is_zero add_all insert sort
later_made = refl

new_snapshot-IsMadeFrom_example : IsMadeFrom hash earlier_input earlier
new_snapshot-IsMadeFrom_example = new_snapshot-IsMadeFrom hash earlier_input earlier_made

one_target : SameTarget earlier later
one_target = record { named = ground (arith, eq_iff "db1" ""); shared = refl }

one_target_back : SameTarget later earlier
one_target_back = record { named = ground (arith, eq_iff "db1" ""); shared = refl }

same_target : SameTarget earlier earlier
same_target = record { named = ground (arith, eq_iff "db1" ""); shared = refl }

abbrev diff_of : Snapshot ℕ → Snapshot ℕ → Diff ℕ
diff_of p c = record {
  previous_snapshot_id = p.id;
  current_snapshot_id = c.id;
  changes = expected_changes p.observations c.observations;
}

compare-eq-expected_example : compare earlier later ≡ ok (diff_of earlier later)
compare-eq-expected_example = compare-eq-expected earlier later one_target

no_nan : HasNoNaN earlier.observations
unfolding equal_ptr
no_nan = (refl, (refl, tt))

nat_eq_comm : (a b : ℕ) → nat_eq a b ≡ nat_eq b a
nat_eq_comm a b = grind arith

compare_swap_example :
    map sides (diff_of earlier later).changes ≡ map sides_back (diff_of later earlier).changes
compare_swap_example =
    compare_swap nat_eq_comm earlier later (compare-eq-expected earlier later one_target)
      (compare-eq-expected later earlier one_target_back)

abbrev later_shuffled : Snapshot ℕ
later_shuffled = record later { observations = counter "z" 1000 ∷ counter "x" 3000 ∷ [] }

shuffled_target : SameTarget earlier later_shuffled
shuffled_target = record { named = ground (arith, eq_iff "db1" ""); shared = refl }

compare_order_example : (diff_of earlier later).changes ≡ (diff_of earlier later_shuffled).changes
compare_order_example =
    compare_order earlier earlier later later_shuffled (Permᴰ.refl earlier.observations)
      (Permᴰ.swap refl refl) (compare-eq-expected earlier later one_target)
      (compare-eq-expected earlier later_shuffled shuffled_target)
