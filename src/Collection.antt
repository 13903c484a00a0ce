-- ===== src/Collection.antt =====
-- sdk/collector/collector.go and the jobs of internal/core/collection/planner.go: what a collector
-- says of itself, and the calls of `Collect` that a run makes. What the database answers to a call
-- is the collector's `collect`, a function of the request: a run asks each collector once per phase.
pub mod Pool
pub mod Result
pub mod Samples
pub mod Planner
use dbprobe.Base.{ℕ, suc, String, Option, none, some, Bool, ◌==◌, List, [], ◌∷◌}
use dbprobe.Sdk.Clock.{Time}
use dbprobe.Sdk.Signal.{Observation}

abbrev pub strategy_snapshot : String
strategy_snapshot = "snapshot"

abbrev pub strategy_counter : String
strategy_counter = "counter"

abbrev pub phase_single : String
phase_single = "single"

abbrev pub phase_sample_a : String
phase_sample_a = "sample_a"

abbrev pub phase_sample_b : String
phase_sample_b = "sample_b"

pub record Descriptor : Type 0 where
  pub id : String
  pub requires : List String
  pub produces : List String
  pub strategy : String

pub record Request : Type 0 where
  pub phase : String
  pub collected_at : Time

-- The observations, and the message of the error if there is one: `Collect` may return both.
pub record Collector (N : Type 0) : Type 0 where
  pub descriptor : Descriptor
  pub collect : Request → List (Observation N) × Option String

pub record BatchJob (N : Type 0) : Type 0 where
  pub index : ℕ
  pub collector : Collector N
  pub descriptor : Descriptor
  pub request : Request

pub record BatchResult (N : Type 0) : Type 0 where
  pub index : ℕ
  pub descriptor : Descriptor
  pub observed : List (Observation N)
  pub err : Option String

module _ {N : Type 0} where
  -- what a worker sends for a job
  abbrev pub perform : BatchJob N → BatchResult N
  perform job =
      let answer = job.collector.collect job.request in
      record { index = job.index; descriptor = job.descriptor; observed = answer.0; err = answer.1 }

  -- the loop of `jobs`, from a position; `now` is what `p.now()` answers at each
  unfoldable pub jobs_from : ℕ → (ℕ → Time) → String → List (Collector N) → List (BatchJob N)
  jobs_from index now phase [] = []
  jobs_from index now phase (candidate ∷ values) =
      record {
        index = index;
        collector = candidate;
        descriptor = candidate.descriptor;
        request = record { phase = phase; collected_at = now index };
      }
      ∷ jobs_from (suc index) now phase values

  abbrev pub jobs : (ℕ → Time) → String → List (Collector N) → List (BatchJob N)
  jobs = jobs_from 0
