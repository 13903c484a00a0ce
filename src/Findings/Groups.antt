-- ===== src/Findings/Groups.antt =====
-- adapters/mysql/findings/rules.go: deltas by object, and the first observation of a key.
pub mod Laws
use Prim.Native.String.{◌++◌}
use dbprobe.Base.{
  String, Option, none, some, Bool, false, not, List, [], ◌∷◌, ◌==◌, ◌||◌, if◌then◌else◌,
}
use dbprobe.Base.GoMap.{GoMap, keys, lookup, insert}
use dbprobe.Base.Lists.{prepend}
use dbprobe.Base.Sort.{sort_strings}
use dbprobe.Sdk.Signal.{Ref, ref_eq, Observation, Delta}

pub record DeltaGroup (N : Type 0) : Type 0 where
  pub ref : Ref
  pub values : GoMap N

-- `Kind + "|" + ID`
abbrev pub group_key : Ref → String
group_key ref = ref.kind ++ "|" ++ ref.id

-- `ref != nil && o.Object != *ref`
abbrev pub is_other : Option Ref → Ref → Bool
is_other none object = false
is_other (some ref) object = not (ref_eq object ref)

module _ {N : Type 0} where
  -- `if g == nil { g = &deltaGroup{…} }`
  abbrev pub group_or_new : Ref → Option (DeltaGroup N) → DeltaGroup N
  group_or_new ref none = record { ref = ref; values = [] }
  group_or_new ref (some g) = g

  -- the loop of `groupDeltas`; the map holds pointers, so the write through `g` is a write to it
  unfoldable pub add_deltas : List (Delta N) → GoMap (DeltaGroup N) → GoMap (DeltaGroup N)
  add_deltas [] out = out
  add_deltas (d ∷ deltas) out =
      let g = group_or_new d.object (lookup out (group_key d.object)) in
      add_deltas deltas
        (insert (group_key d.object) (record g { values = insert d.key d.delta g.values }) out)

  unfoldable pub group_deltas : List (Delta N) → GoMap (DeltaGroup N)
  group_deltas deltas = add_deltas deltas []

  unfoldable pub groups_at : GoMap (DeltaGroup N) → List String → List (DeltaGroup N)
  groups_at grouped [] = []
  groups_at grouped (key ∷ ordered) = prepend (lookup grouped key) (groups_at grouped ordered)

  unfoldable pub sorted_delta_groups : List (Delta N) → List (DeltaGroup N)
  sorted_delta_groups deltas =
      groups_at (group_deltas deltas) (sort_strings (keys (group_deltas deltas)))

  -- The three results are the observation and its number, or nothing.
  unfoldable pub first_number :
      List (Observation N) → String → Option Ref → Option (Observation N × N)
  first_number [] key ref = none
  first_number (o ∷ obs) key ref =
      let rest = first_number obs key ref in
      elim o.number [
        | none ↦ rest
        | some n ↦ if not (o.key == key) || is_other ref o.object then rest else some (o, n)
      ]
