-- ===== src/Sdk/Finding.antt =====
-- sdk/finding/finding.go: what rules report, and what they are given.
use dbprobe.Base.{String, List}
use dbprobe.Sdk.Capability.{CapabilitySet}
use dbprobe.Sdk.Signal.{Ref, Observation, Delta}

pub record Finding (N : Type 0) : Type 0 where
  pub id : String
  pub title : String
  pub severity : String
  pub object : Ref
  pub evidence : List (Observation N)
  pub summary : String
  pub guidance : String
  pub confidence : N

pub record AnalysisContext (N : Type 0) : Type 0 where
  pub capabilities : CapabilitySet
  pub current : List (Observation N)
  pub previous : List (Observation N)
  pub deltas : List (Delta N)

-- A value of Go's interface `finding.Rule`.
pub record Rule (N : Type 0) : Type 0 where
  pub id : String
  pub requires : List String
  pub evaluate : AnalysisContext N → List (Finding N)
