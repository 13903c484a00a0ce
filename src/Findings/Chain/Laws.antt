-- ===== src/Findings/Chain/Laws.antt =====
-- The depth of the graph of waits is the length of its longest walk that leaves no transaction twice.
use mathlib.Core.List.{Mem, mem-cons_self, mem-cons_of_mem, not-mem-nil}
use dbprobe.Base.{
  String, ℕ, zero, suc, true, false, not, List, [], ◌∷◌, ◌==◌, ◌≡◌, refl, arith, inl, inr, ltb,
  Bool-cases, Option-cases, ◌≤◌, ◌<◌, ◌∙◌, ◌⊎◌, eq_iff, subst,
}
use dbprobe.Base.Contains.{contains, contains_iff}
use dbprobe.Base.GoMap.{GoMap, keys, lookup, mem-keys_iff}
use dbprobe.Base.Lists.{length, filter}
use dbprobe.Findings.Chain.{max, successors, blocking_depth, best_depth}

-- A walk of `n` edges from a node, that leaves no node of the path and none twice.
pub data Walk (adjacency : GoMap (List String)) : List String → String → ℕ → Type 0 where
  stop : {path : List String} {node : String} → Walk adjacency path node 0
  step :
      {path : List String} {node next : String} {n : ℕ}
      → contains path node ≡ false
      → Mem next (successors adjacency node)
      → Walk adjacency (node ∷ path) next n
      → Walk adjacency path node (suc n)

best-grows : (depth : String → ℕ) (best : ℕ) (l : List String) → best ≤ best_depth depth best l
unfolding best_depth
best-grows depth best [] = omega arith
best-grows depth best (next ∷ l) =
    let tail = best-grows depth (max best (suc (depth next))) l in grind (arith, tail)

best-above :
    (depth : String → ℕ) (best : ℕ) (l : List String) (next : String)
    → Mem next l
    → suc (depth next) ≤ best_depth depth best l
unfolding best_depth
best-above depth best [] next m = absurd (not-mem-nil m)
best-above depth best (x ∷ l) next m = elim (Bool-cases (x == next)) [
  | inl e ↦
      let grown : max best (suc (depth next)) ≤ best_depth depth (max best (suc (depth x))) l =
        subst (λ u. max best (suc (depth u)) ≤ best_depth depth (max best (suc (depth x))) l)
          ((eq_iff x next).0 e) (best-grows depth (max best (suc (depth x))) l) in
      grind (arith, grown)
  | inr e ↦ best-above depth (max best (suc (depth x))) l next (mem_tail x e m)
]
  where
    mem_tail :
        {l : List String} {next : String} (x : String)
        → (x == next) ≡ false
        → Mem next (x ∷ l)
        → Mem next l
    mem_tail {l} {next} x e m =
        let whole : contains (x ∷ l) next ≡ true = (contains_iff (x ∷ l) next).1 m in
        (contains_iff l next).0 (ground arith)

-- the best depth is that of a successor, if there is one
best-attained :
    (depth : String → ℕ) (best : ℕ) (l : List String)
    → (best_depth depth best l ≡ best)
      ⊎ ((next : String) × Mem next l × (best_depth depth best l ≡ suc (depth next)))
unfolding best_depth
best-attained depth best [] = inl refl
best-attained depth best (x ∷ l) = elim (best-attained depth (max best (suc (depth x))) l) [
  | inl e ↦ elim (Bool-cases (ltb best (suc (depth x)))) [
    | inl b ↦ inr (x, mem-cons_self, e ∙ rw b refl)
    | inr b ↦ inl (e ∙ rw b refl)
  ]
  | inr (next, m, e) ↦ inr (next, mem-cons_of_mem x m, e)
]

module _ (adjacency : GoMap (List String)) where
  -- a walk that the fuel allows is no longer than the depth
  pub Walk-le_depth :
      {path : List String} {node : String} {n : ℕ} (fuel : ℕ)
      → Walk adjacency path node n
      → n ≤ fuel
      → n ≤ blocking_depth fuel adjacency path node
  unfolding blocking_depth
  Walk-le_depth fuel stop h = omega arith
  Walk-le_depth zero (step new m w) h = absurd (omega arith)
  Walk-le_depth {path} {node} (suc fuel) (step {next = next} new m w) h =
      let tail = Walk-le_depth fuel w (omega arith) in
      let above =
        best-above (blocking_depth fuel adjacency (node ∷ path)) 0 (successors adjacency node) next
          m in
      rw new (omega (arith, tail, above))

  -- the depth is the length of a walk
  pub Walk-depth :
      (fuel : ℕ) (path : List String) (node : String)
      → Walk adjacency path node (blocking_depth fuel adjacency path node)
  unfolding blocking_depth
  Walk-depth zero path node = stop
  Walk-depth (suc fuel) path node = elim (Bool-cases (contains path node)) [
    | inl e ↦ rw e stop
    | inr e ↦
        rw e
          (elim (best-attained (blocking_depth fuel adjacency (node ∷ path)) 0
            (successors adjacency node)) [
              | inl z ↦ rw z stop
              | inr (next, m, s) ↦ rw s (step e m (Walk-depth fuel (node ∷ path) next))
            ])
  ]

  -- A transaction of the list that is not on the path.
  abbrev pub free : List String → List String → ℕ
  free path l = length (filter (λ k. not (contains path k)) l)

  free-le :
      (path : List String) (node : String) (l : List String) → free (node ∷ path) l ≤ free path l
  free-le path node [] = omega arith
  free-le path node (k ∷ l) = let tail = free-le path node l in ground (arith, tail)

  free-lt :
      (path : List String) (node : String) (l : List String)
      → contains path node ≡ false
      → contains l node ≡ true
      → free (node ∷ path) l < free path l
  free-lt path node [] h m = cc
  free-lt path node (k ∷ l) h m = elim (Bool-cases (k == node)) [
    | inl e ↦
        let same = (eq_iff k node).0 e in
        let le : free (node ∷ path) l ≤ free path l = free-le path node l in
        rw same (ground (arith, eq_iff node node))
    | inr e ↦
        let tail : free (node ∷ path) l < free path l = free-lt path node l h (ground arith) in
        ground (arith, eq_iff k node, eq_iff node k)
  ]

  pub key_of_successor :
      (node next : String)
      → Mem next (successors adjacency node)
      → contains (keys adjacency) node ≡ true
  unfolding successors
  key_of_successor node next m = elim (Option-cases (lookup adjacency node)) [
    | inl e ↦ absurd (not-mem-nil (subst (λ l. Mem next l) (ground (arith, e)) m))
    | inr (l, e) ↦
        (contains_iff (keys adjacency) node).1 ((mem-keys_iff node adjacency).1 (λ z. cc (z, e)))
  ]

  pub Walk-le_free :
      {path : List String} {node : String} {n : ℕ}
      → Walk adjacency path node n
      → n ≤ free path (keys adjacency)
  Walk-le_free stop = omega arith
  Walk-le_free {path} {node} (step {next = next} new m w) =
      omega (
        arith,
        Walk-le_free w,
        free-lt path node (keys adjacency) new (key_of_successor node next m),
      )
