-- ===== src/Temporal/Diff.antt =====
-- internal/core/temporal/diff.go: what changed between two snapshots of one target.
pub mod Identity
pub mod Expected
pub mod Laws
pub mod Order
use Prim.Native.String.{◌++◌}
use dbprobe.Base.{
  String, Option, none, some, Bool, true, false, not, ◌&&◌, ◌||◌, List, [], ◌∷◌, ◌==◌,
  if◌then◌else◌,
}
use dbprobe.Base.GoMap.{GoMap, keys, lookup, insert}
use dbprobe.Base.Outcome.{Outcome, ok, err, ◌>>=◌, ◌>>◌, fail_if}
use dbprobe.Base.Sort.{sort_strings}
use dbprobe.Sdk.Capability.{add_all}
use dbprobe.Sdk.Number.{Float64}
use dbprobe.Sdk.Signal.{Ref, ref_eq, Observation, exactness_cumulative}
use dbprobe.Temporal.Snapshot.{Snapshot, clone_observation}

abbrev pub change_added : String
change_added = "added"

abbrev pub change_removed : String
change_removed = "removed"

abbrev pub change_changed : String
change_changed = "changed"

abbrev pub change_reset : String
change_reset = "reset"

pub record Change (N : Type 0) : Type 0 where
  pub kind : String
  pub key : String
  pub object : Ref
  pub before : Option (Observation N)
  pub after : Option (Observation N)
  pub numeric_delta : Option N

pub record Diff (N : Type 0) : Type 0 where
  pub previous_snapshot_id : String
  pub current_snapshot_id : String
  pub changes : List (Change N)

-- `equalFloatPtr`, `equalStringPtr`, `equalBoolPtr`: the same code at three types
unfoldable pub equal_ptr : {A : Type 0} → (A → A → Bool) → Option A → Option A → Bool
equal_ptr same none none = true
equal_ptr same none (some b) = false
equal_ptr same (some a) none = false
equal_ptr same (some a) (some b) = same a b

abbrev pub bool_eq : Bool → Bool → Bool
bool_eq true b = b
bool_eq false b = not b

-- a read of `map[string]bool`: a missing key is false
unfoldable pub flag : GoMap Bool → String → Bool
flag m k = elim (lookup m k) [ none ↦ false | some b ↦ b ]

module _ {N : Type 0} where
  unfoldable pub observation_identity : Observation N → String
  observation_identity value = value.key ++ "|" ++ value.object.kind ++ "|" ++ value.object.id

  -- `if _, exists := out[identity]; exists { ambiguous[identity] = true }`
  unfoldable pub mark_repeated : Option (Observation N) → String → GoMap Bool → GoMap Bool
  mark_repeated none identity ambiguous = ambiguous
  mark_repeated (some _) identity ambiguous = insert identity true ambiguous

  -- the loop of `observationMap`
  unfoldable pub scan_observations :
      List (Observation N) → GoMap (Observation N) → GoMap Bool → GoMap (Observation N) × GoMap Bool
  scan_observations [] out ambiguous = (out, ambiguous)
  scan_observations (value ∷ values) out ambiguous =
      let identity = observation_identity value in
      scan_observations values (insert identity value out)
        (mark_repeated (lookup out identity) identity ambiguous)

  unfoldable pub observation_map : List (Observation N) → GoMap (Observation N) × GoMap Bool
  observation_map values = scan_observations values [] []

module _ {N : Type 0} ⦃f : Float64 N⦄ where
  unfoldable pub observation_equivalent : Observation N → Observation N → Bool
  unfolding equal_ptr ref_eq
  observation_equivalent a b =
      if not (a.key == b.key)
        || not (ref_eq a.object b.object)
        || not (a.unit == b.unit)
        || not (a.exactness == b.exactness)
        || not (a.sensitivity == b.sensitivity)
        || not (a.source == b.source)
        || not (a.reason == b.reason)
      then false
      else equal_ptr f.eq a.number b.number
        && equal_ptr ◌==◌ a.text b.text
        && equal_ptr bool_eq a.boolean b.boolean

  -- the numeric part of a change: a cumulative counter that fell was reset
  unfoldable pub with_numbers : Observation N → Observation N → Change N → Change N
  with_numbers before after change = elim before.number [
    | none ↦ change
    | some b ↦ elim after.number [
      | none ↦ change
      | some a ↦
          if (before.exactness == exactness_cumulative)
            && (after.exactness == exactness_cumulative)
            && f.lt a b
          then record change { kind = change_reset }
          else record change { numeric_delta = some (f.sub a b) }
    ]
  ]

  -- the `switch` of `Compare`
  unfoldable pub change_of : Option (Observation N) → Option (Observation N) → Option (Change N)
  unfolding with_numbers
  change_of none none = none
  change_of none (some after) = some (record {
    kind = change_added;
    key = after.key;
    object = after.object;
    before = none;
    after = some (clone_observation after);
    numeric_delta = none;
  })
  change_of (some before) none = some (record {
    kind = change_removed;
    key = before.key;
    object = before.object;
    before = some (clone_observation before);
    after = none;
    numeric_delta = none;
  })
  change_of (some before) (some after) =
      if observation_equivalent before after
      then none
      else some (
          with_numbers before after (record {
            kind = change_changed;
            key = after.key;
            object = after.object;
            before = some (clone_observation before);
            after = some (clone_observation after);
            numeric_delta = none;
          }))

  -- the loop over the sorted identities
  unfoldable pub changes_at :
      GoMap (Observation N) × GoMap Bool
      → GoMap (Observation N) × GoMap Bool
      → List String
      → List (Change N)
  changes_at prev cur [] = []
  changes_at prev cur (key ∷ ordered) =
      let rest = changes_at prev cur ordered in
      if flag prev.1 key || flag cur.1 key
      then rest
      else elim (change_of (lookup prev.0 key) (lookup cur.0 key)) [
        | none ↦ rest
        | some change ↦ change ∷ rest
      ]

  unfoldable pub compare : Snapshot N → Snapshot N → Outcome (Diff N)
  compare previous current = do
    fail_if
        ((previous.target_fingerprint == "")
          || (current.target_fingerprint == "")
          || not (previous.target_fingerprint == current.target_fingerprint))
        "cannot compare snapshots from different targets"
    let prev = observation_map previous.observations
    let cur = observation_map current.observations
    let keys_seen = add_all (keys cur.0) (add_all (keys prev.0) [])
    ok (record {
      previous_snapshot_id = previous.id;
      current_snapshot_id = current.id;
      changes = changes_at prev cur (sort_strings (keys keys_seen));
    })
