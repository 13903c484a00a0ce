-- ===== src/Tests/Rules.antt =====
-- Rules on two transactions that wait in a chain.
use dbprobe.Base.{String, ℕ, some, List, [], ◌∷◌, ◌≡◌, refl}
use dbprobe.Base.GoMap.{GoMap, keys, lookup, insert}
use dbprobe.Base.GoStrings.{split_arrow, trim_space, trim_left, trim_right}
use dbprobe.Base.Lists.{All}
use dbprobe.Findings.Chain.{
  longest_chain, blocking_depth, best_depth, successors, wait_graph, add_edge, edge_in, edge_of,
}
use dbprobe.Findings.Chain.Longest.{IsLongest, longest_chain-IsLongest}
use dbprobe.Findings.Rules.{mysql_rules}
use dbprobe.Findings.Rules.Evidence.{IsSound, mysql_rules-IsSound}
use dbprobe.Sdk.Capability.{new}
use dbprobe.Sdk.Finding.{AnalysisContext}
use dbprobe.Sdk.Number.{milli}
use dbprobe.Sdk.Signal.{Observation}
use dbprobe.Tests.Data.{counter}

abbrev waits : GoMap (List String)
waits = ("t1", "t2" ∷ []) ∷ ("t2", "t3" ∷ "t1" ∷ []) ∷ []

abbrev edge : String → Observation ℕ
edge text = record (counter "mysql.lock_wait.edge" 1) { text = some text }

abbrev locked : AnalysisContext ℕ
locked = record {
  capabilities = new [];
  current = edge "t1 -> t2" ∷ edge "t2->t3" ∷ edge "t4" ∷ [];
  previous = [];
  deltas = [];
}

-- the edges are read, a text with no arrow is passed over
graph_read : (wait_graph locked.current ([], [])).0 ≡ ("t1", "t2" ∷ []) ∷ ("t2", "t3" ∷ []) ∷ []
unfolding wait_graph add_edge edge_in edge_of split_arrow trim_space trim_right trim_left insert
    lookup
graph_read = refl

-- a cycle counts the edge that closes it
cycle_counted : longest_chain waits 0 (keys waits) ≡ 2
unfolding longest_chain blocking_depth best_depth successors lookup
cycle_counted = refl

longest_chain-IsLongest_example : IsLongest waits (longest_chain waits 0 (keys waits))
longest_chain-IsLongest_example = longest_chain-IsLongest waits

mysql_rules-IsSound_example : All (IsSound {N = ℕ}) (mysql_rules (λ s. s) (λ n. "n"))
mysql_rules-IsSound_example = mysql_rules-IsSound (λ s. s) (λ n. "n")
