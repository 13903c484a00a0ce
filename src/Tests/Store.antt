-- ===== src/Tests/Store.antt =====
-- The store in memory, after two inspections are saved.
use dbprobe.Base.{ℕ, String, some, ◌&&◌, ◌==◌, true, if◌then◌else◌, ◌≡◌, refl, eq_iff, arith}
use dbprobe.Base.GoMap.{lookup, insert}
use dbprobe.Base.Outcome.{ok, err}
use dbprobe.Baseline.Spec.{Answers, Lists}
use dbprobe.DiffReport.{run}
use dbprobe.DiffReport.Laws.{Reported, memory_reader, run-Reported}
use dbprobe.Sdk.Number.{milli}
use dbprobe.Baseline.Memory.{
  Memory, new_memory, by_id, held_for, save, save_copy, put_snapshot, clone_snapshot, latest,
  previous, list,
}
use dbprobe.Baseline.Memory.Laws.{
  IsValid, IsNamed, new_memory-IsValid, save-IsValid, lookup-save, keep_or,
}
use dbprobe.Baseline.Memory.Queries.{latest-Answers, previous-Answers, list-Lists}
use dbprobe.Sdk.Clock.{is_zero, before}
use dbprobe.Base.Sort.{sort}
use dbprobe.Sdk.Capability.{add_all}
use dbprobe.Temporal.Snapshot.{
  Snapshot, new_snapshot, snapshot_id, normalize_capabilities, clone_observations, clone_findings,
}
use dbprobe.Temporal.Snapshot.Laws.{new_snapshot_idem}
use dbprobe.Tests.Data.{metrics, hash, later_input, earlier, later, at}
use dbprobe.Tests.Temporal.{later_made}

abbrev one_saved : Memory ℕ
one_saved = (save hash new_memory earlier).0

abbrev pub two_saved : Memory ℕ
two_saved = (save hash one_saved later).0

one_saved-IsValid : IsValid hash one_saved
one_saved-IsValid = save-IsValid hash earlier (new_memory-IsValid hash)

save-IsValid_example : IsValid hash two_saved
save-IsValid_example = save-IsValid hash later one_saved-IsValid

pub two_saved-IsValid : IsValid hash two_saved
two_saved-IsValid = save-IsValid hash later one_saved-IsValid

latest-Answers_example :
    Answers (λ s. true) (held_for two_saved "db1") (latest hash two_saved "db1")
latest-Answers_example = latest-Answers hash two_saved-IsValid "db1"

previous-Answers_example :
    Answers
      (λ s. before s.collected_at (at 2))
      (held_for two_saved "db1")
      (previous hash two_saved "db1" (at 2))
previous-Answers_example = previous-Answers hash two_saved-IsValid "db1" (at 2)

list-Lists_example : Lists 1 (held_for two_saved "db1") (list hash two_saved "db1" 1)
list-Lists_example = list-Lists hash two_saved-IsValid "db1" 1

later-IsNamed : IsNamed hash later
unfolding is_zero
later-IsNamed = (ground (arith, eq_iff "db1|2" ""), ground (arith, eq_iff "db1" ""), refl)

later_copied : clone_snapshot hash later ≡ ok later
unfolding clone_snapshot
later_copied = new_snapshot_idem hash later_input later_made

lookup-save_example :
    ((save hash one_saved later).1 ≡ ok tt)
    × ((t k : String)
        → lookup (by_id (save hash one_saved later).0 t) k ≡ (
            if ("db1" == t) && ("db1|2" == k)
            then keep_or hash (lookup (by_id one_saved t) k) later
            else lookup (by_id one_saved t) k))
lookup-save_example = lookup-save hash one_saved later later-IsNamed later_copied

-- a snapshot with no identity
abbrev unnamed : Snapshot ℕ
unnamed = record later { id = "" }

unnamed_refused : (save hash one_saved unnamed).1 ≡ err "invalid snapshot"
unfolding save
unnamed_refused = refl

abbrev relabelled : Snapshot ℕ
relabelled = record earlier { adapter_version = "2" }

earlier_held : lookup (by_id one_saved "db1") "db1|1" ≡ some earlier
unfolding by_id save save_copy put_snapshot clone_snapshot lookup insert is_zero new_snapshot
    snapshot_id normalize_capabilities clone_observations clone_findings sort add_all
earlier_held = refl

run-Reported_example :
    Reported
      (held_for two_saved "db1")
      (run (some (memory_reader hash two_saved)) "db1" (some metrics))
run-Reported_example =
    run-Reported hash two_saved-IsValid "db1" (ground (arith, eq_iff "db1" "")) (some metrics)
