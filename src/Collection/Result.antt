-- ===== src/Collection/Result.antt =====
-- internal/core/collection/planner.go: the result of a run, and the strings that name what is in it.
use Prim.Native.String.{◌++◌}
use dbprobe.Base.{String, List}
use dbprobe.Sdk.Signal.{Observation, Delta}

pub record Warning : Type 0 where
  pub collector_id : String
  pub reason : String

pub record Result (N : Type 0) : Type 0 where
  pub observations : List (Observation N)
  pub deltas : List (Delta N)
  pub warnings : List Warning

module _ {N : Type 0} where
  abbrev pub identity : Observation N → String
  identity o = o.key ++ "|" ++ o.object.kind ++ "|" ++ o.object.id

  abbrev pub delta_key : Delta N → String
  delta_key d = d.key ++ "|" ++ d.object.kind ++ "|" ++ d.object.id

  abbrev pub sample_key : String → Observation N → String
  sample_key id observation = id ++ "|" ++ identity observation

  abbrev pub reset_warning : String → Observation N → Warning
  reset_warning id current = record {
    collector_id = id;
    reason = "counter reset detected for " ++ identity current;
  }
