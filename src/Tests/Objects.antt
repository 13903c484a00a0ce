-- ===== src/Tests/Objects.antt =====
-- Rules that put together what is known of one object.
use dbprobe.Base.{Bool, String, ℕ, Option, some, none, List, [], ◌∷◌, ◌≡◌, false, refl}
use dbprobe.Base.GoMap.{lookup, insert}
use dbprobe.Base.GoStrings.{byte_len, has_prefix}
use dbprobe.Base.Sort.{sort}
use dbprobe.Base.Lists.{All, length}
use dbprobe.Findings.Indexes.{
  index_states, redundant_indexes, add_indexes, redundant_index, first_cover,
}
use dbprobe.Findings.Indexes.Laws.{IsRedundant, redundant_indexes-AreRedundant}
use dbprobe.Sdk.Capability.{new}
use dbprobe.Sdk.Finding.{AnalysisContext}
use dbprobe.Sdk.Number.{milli}
use dbprobe.Sdk.Signal.{Observation, Delta}
use dbprobe.Tests.Data.{counter, sample}

abbrev twice : List (Delta ℕ)
twice = sample "calls" 1000 ∷ sample "latency" 5000 ∷ sample "calls" 2000 ∷ []

abbrev says : String → String → Option String → Option Bool → Observation ℕ
says id key text boolean = record (counter key 0) {
  object = record { kind = "mysql.index"; id = id };
  number = none;
  text = text;
  boolean = boolean;
}

abbrev two_indexes : AnalysisContext ℕ
two_indexes = record {
  capabilities = new [];
  current =
      says "a" "mysql.index.primary" none (some false)
      ∷ says "a" "mysql.index.unique" none (some false)
      ∷ says "a" "mysql.index.table" (some "t") none
      ∷ says "a" "mysql.index.columns" (some "x") none
      ∷ says "b" "mysql.index.primary" none (some false)
      ∷ says "b" "mysql.index.unique" none (some false)
      ∷ says "b" "mysql.index.table" (some "t") none
      ∷ says "b" "mysql.index.columns" (some "x,y") none
      ∷ [];
  previous = [];
  deltas = [];
}

redundant_indexes-AreRedundant_example :
    All (IsRedundant (index_states two_indexes.current)) (redundant_indexes two_indexes)
redundant_indexes-AreRedundant_example = redundant_indexes-AreRedundant two_indexes

-- the shorter index is reported, and nothing else
one_reported : length (redundant_indexes two_indexes) ≡ 1
unfolding redundant_indexes sort index_states add_indexes insert redundant_index lookup first_cover
    byte_len has_prefix
one_reported = refl
