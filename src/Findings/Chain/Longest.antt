-- ===== src/Findings/Chain/Longest.antt =====
-- The rule on blocking chains reports the length of the longest walk in the graph of waits.
use dbprobe.Base.{
  String, ℕ, zero, suc, Bool, true, List, [], ◌∷◌, ◌==◌, ◌≡◌, ◌⊎◌, ◌↔◌, refl, arith, inl, inr, ltb,
  Bool-cases, ◌≤◌, ◌<◌, ◌∙◌, ap, eq_iff,
}
use dbprobe.Base.Contains.{contains}
use dbprobe.Base.GoMap.{GoMap, keys}
use dbprobe.Base.Lists.{length, filter}
use dbprobe.Findings.Chain.{
  max, blocking_depth, longest_chain, wait_graph, chain_finding, blocking_chain,
}
use dbprobe.Findings.Chain.Laws.{Walk, Walk-depth, Walk-le_depth, Walk-le_free, key_of_successor}
use dbprobe.Sdk.Finding.{AnalysisContext}
use dbprobe.Sdk.Number.{Float64}
use dbprobe.Sdk.Signal.{Observation}

module _ (adjacency : GoMap (List String)) where
  abbrev depth_of : String → ℕ
  depth_of node = blocking_depth (suc (length (keys adjacency))) adjacency [] node

  length-filter_le : {A : Type 0} (p : A → Bool) (l : List A) → length (filter p l) ≤ length l
  length-filter_le p [] = omega arith
  length-filter_le p (x ∷ l) = let tail = length-filter_le p l in ground (arith, tail)

  Walk-le : {node : String} {n : ℕ} → Walk adjacency [] node n → n ≤ depth_of node
  Walk-le {n = n} w =
      let bound : n ≤ length (keys adjacency) =
        omega (arith, Walk-le_free adjacency w, length-filter_le (λ k. true) (keys adjacency)) in
      Walk-le_depth adjacency (suc (length (keys adjacency))) w (omega arith)

  longest-grows :
      (longest : ℕ) (nodes : List String) → longest ≤ longest_chain adjacency longest nodes
  unfolding longest_chain
  longest-grows longest [] = omega arith
  longest-grows longest (node ∷ nodes) =
      let tail = longest-grows (max longest (depth_of node)) nodes in grind (arith, tail)

  longest-above :
      (longest : ℕ) (nodes : List String) (node : String)
      → contains nodes node ≡ true
      → depth_of node ≤ longest_chain adjacency longest nodes
  unfolding longest_chain
  longest-above longest [] node m = cc
  longest-above longest (x ∷ nodes) node m = elim (Bool-cases (x == node)) [
    | inl e ↦
        let grown = longest-grows (max longest (depth_of x)) nodes in
        let same = ap depth_of ((eq_iff x node).0 e) in grind (arith, grown, same)
    | inr e ↦ longest-above (max longest (depth_of x)) nodes node (ground arith)
  ]

  longest-attained :
      (longest : ℕ) (nodes : List String)
      → (longest_chain adjacency longest nodes ≡ longest)
        ⊎ ((node : String) × (longest_chain adjacency longest nodes ≡ depth_of node))
  unfolding longest_chain
  longest-attained longest [] = inl refl
  longest-attained longest (x ∷ nodes) = elim (longest-attained (max longest (depth_of x)) nodes) [
    | inl e ↦ elim (Bool-cases (ltb longest (depth_of x))) [
      | inl b ↦ inr (x, e ∙ rw b refl)
      | inr b ↦ inl (e ∙ rw b refl)
    ]
    | inr (node, e) ↦ inr (node, e)
  ]

  -- No walk is longer, and some walk is as long.
  pub record IsLongest (d : ℕ) : Type 0 where
    pub bound : (node : String) (n : ℕ) → Walk adjacency [] node n → n ≤ d
    pub attained : (node : String) × Walk adjacency [] node d

  Walk-le_longest :
      (node : String) (n : ℕ)
      → Walk adjacency [] node n
      → n ≤ longest_chain adjacency 0 (keys adjacency)
  Walk-le_longest node zero w = omega arith
  Walk-le_longest node (suc n) (Walk.step {next = next} new m w) = omega (
    arith,
    Walk-le (Walk.step new m w),
    longest-above 0 (keys adjacency) node (key_of_successor adjacency node next m),
  )

  -- The number that the rule on blocking chains computes of a graph of waits is the length of the
  -- longest walk that leaves no transaction twice: no such walk is longer, and one is as long.
  pub longest_chain-IsLongest : IsLongest (longest_chain adjacency 0 (keys adjacency))
  longest_chain-IsLongest = record {
    bound = Walk-le_longest;
    attained = elim (longest-attained 0 (keys adjacency)) [
      | inl e ↦ ("", rw e Walk.stop)
      | inr (node, e) ↦ (node, rw e (Walk-depth adjacency (suc (length (keys adjacency))) [] node))
    ];
  }

module _ {N : Type 0} ⦃f : Float64 N⦄ where
  chain_finding-nil_iff :
      (decimal : ℕ → String) (d : ℕ) (evidence : List (Observation N))
      → (chain_finding decimal d evidence ≡ []) ↔ (d < 2)
  unfolding chain_finding
  chain_finding-nil_iff decimal d evidence = elim (Bool-cases (ltb d 2)) [
    | inl e ↦ (λ h. grind arith, λ h. rw e refl)
    | inr e ↦ (λ h. ground (arith, e), λ h. absurd (grind arith))
  ]

  -- The rule on blocking chains reports nothing exactly when no transaction waits for one that waits
  -- itself: every walk in the graph of the observed waits has at most one edge.
  pub blocking_chain-nil_iff :
      (decimal : ℕ → String) (ctx : AnalysisContext N)
      → (blocking_chain decimal ctx ≡ [])
        ↔ ((node : String) (n : ℕ) → Walk (wait_graph ctx.current ([], [])).0 [] node n → n < 2)
  unfolding blocking_chain
  blocking_chain-nil_iff decimal ctx =
      let graph = wait_graph ctx.current ([], []) in
      let l = longest_chain-IsLongest graph.0 in
      let short = chain_finding-nil_iff decimal (longest_chain graph.0 0 (keys graph.0)) graph.1 in
      (
        λ h node n w. omega (arith, short.0 h, l.bound node n w),
        λ h. short.1 (h l.attained.0 _ l.attained.1),
      )
