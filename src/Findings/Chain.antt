-- ===== src/Findings/Chain.antt =====
-- adapters/mysql/findings/blocking_chain.go: the depth of the graph of transactions that wait for
-- one another. The path is a list; fuel for one more call than there are transactions that wait is
-- enough, since each call of `blockingDepth` that goes on adds one of them to the path.
pub mod Laws
pub mod Longest
use Prim.Native.String.{◌++◌}
use dbprobe.Base.{
  String, ℕ, zero, suc, Option, none, some, Bool, true, false, not, List, [], ◌∷◌, ◌==◌, ◌||◌, ◌&&◌,
  if◌then◌else◌, ltb, leb,
}
use dbprobe.Base.Contains.{contains}
use dbprobe.Base.GoMap.{GoMap, keys, lookup, insert}
use dbprobe.Base.GoStrings.{trim_space, split_arrow}
use dbprobe.Base.Lists.{length}
use dbprobe.Sdk.Finding.{Finding, AnalysisContext, Rule}
use dbprobe.Sdk.Number.{Float64}
use dbprobe.Sdk.Signal.{Observation}
use mathlib.Core.List

abbrev pub max : ℕ → ℕ → ℕ
max best depth = if ltb best depth then depth else best

-- a read of a missing key is a nil slice
unfoldable pub successors : GoMap (List String) → String → List String
successors adjacency node = elim (lookup adjacency node) [ none ↦ [] | some next ↦ next ]

-- the loop over the successors, from the depth of each
unfoldable pub best_depth : (String → ℕ) → ℕ → List String → ℕ
best_depth depth best [] = best
best_depth depth best (next ∷ rest) = best_depth depth (max best (suc (depth next))) rest

unfoldable pub blocking_depth : ℕ → GoMap (List String) → List String → String → ℕ
unfolding best_depth successors
blocking_depth zero adjacency path node = 0
blocking_depth (suc fuel) adjacency path node =
    let best =
      best_depth (λ next. blocking_depth fuel adjacency (node ∷ path) next) 0
        (successors adjacency node) in
    if contains path node then 0 else best

-- the loop over the nodes
unfoldable pub longest_chain : GoMap (List String) → ℕ → List String → ℕ
longest_chain adjacency longest [] = longest
longest_chain adjacency longest (node ∷ nodes) =
    longest_chain adjacency
      (max longest (blocking_depth (suc (length (keys adjacency))) adjacency [] node)) nodes

-- the requesting and the blocking transaction of an edge
unfoldable pub edge_of : List String → Option (String × String)
edge_of (left ∷ right ∷ []) =
    let requesting = trim_space left in
    let blocking = trim_space right in
    if (requesting == "") || (blocking == "") then none else some (requesting, blocking)
edge_of parts = none

unfoldable pub add_edge :
    {N : Type 0}
    → Observation N
    → Option (String × String)
    → GoMap (List String) × List (Observation N)
    → GoMap (List String) × List (Observation N)
unfolding successors
add_edge observation none (adjacency, evidence) = (adjacency, evidence)
add_edge observation (some (requesting, blocking)) (adjacency, evidence) = (
  insert requesting (List.◌++◌ (successors adjacency requesting) (blocking ∷ [])) adjacency,
  List.◌++◌ evidence (observation ∷ []),
)

unfoldable pub edge_in : {N : Type 0} → Observation N → Option (String × String)
edge_in observation = elim observation.text [
  | none ↦ none
  | some text ↦
      if observation.key == "mysql.lock_wait.edge" then edge_of (split_arrow "" text) else none
]

-- the first loop of the rule
unfoldable pub wait_graph :
    {N : Type 0}
    → List (Observation N)
    → GoMap (List String) × List (Observation N)
    → GoMap (List String) × List (Observation N)
wait_graph [] graph = graph
wait_graph (observation ∷ current) graph =
    wait_graph current (add_edge observation (edge_in observation) graph)

module _ {N : Type 0} ⦃f : Float64 N⦄ where
  -- `decimal` is the verb `%d` of `fmt`.
  unfoldable pub chain_finding : (ℕ → String) → ℕ → List (Observation N) → List (Finding N)
  chain_finding decimal longest evidence =
      if ltb longest 2
      then []
      else record {
        id = "mysql.blocking_chain";
        title = "Multi-transaction blocking chain detected";
        severity = if leb 3 longest then "critical" else "warn";
        object = record { kind = "mysql.lock_graph"; id = "blocking-chain" };
        evidence = evidence;
        summary =
            "The current InnoDB wait-for graph contains a blocking chain at least "
            ++ decimal longest
            ++ " edges deep.";
        guidance =
            "Inspect the involved transaction boundaries and stable table/index evidence. Do not use ephemeral transaction IDs as long-lived suppression keys or automatically kill blockers.";
        confidence = f.lit 90 2;
      }
        ∷ []

  unfoldable pub blocking_chain : (ℕ → String) → AnalysisContext N → List (Finding N)
  unfolding chain_finding longest_chain wait_graph
  blocking_chain decimal ctx =
      let (adjacency, evidence) = wait_graph ctx.current ([], []) in
      chain_finding decimal (longest_chain adjacency 0 (keys adjacency)) evidence

  abbrev pub blocking_chain_rule : (ℕ → String) → Rule N
  blocking_chain_rule decimal = record {
    id = "mysql.blocking_chain";
    requires = "locking.wait_graph" ∷ [];
    evaluate = blocking_chain decimal;
  }
