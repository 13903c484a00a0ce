-- ===== src/Findings/Rules/Evidence.antt =====
-- Whatever the adapter's rules report carries the rule's identity and rests on what was observed.
use mathlib.Core.List.{Mem, mem-cons_self, mem-cons_of_mem}
use dbprobe.Base.{
  String, ℕ, Option, none, some, true, not, List, [], ◌∷◌, ◌==◌, ◌||◌, ◌≡◌, arith, refl, subst, sym,
  ltb, leb, inl, inr, Option-cases, Bool-cases,
}
use dbprobe.Base.GoMap.{GoMap}
use dbprobe.Base.Lists.{All, All-append}
use dbprobe.Base.Optional.{collect, All-collect, All-mem}
use dbprobe.Findings.{severity_from}
use dbprobe.Findings.Groups.{DeltaGroup, is_other, first_number}
use dbprobe.Findings.Engine.{full_scan_heavy_table}
use dbprobe.Findings.Indexes.{
  index_states, unused_index, unused_since, unused_indexes, redundant_indexes,
}
use dbprobe.Findings.Totals.{stopped_channels, contended_tables}
use dbprobe.Findings.Chain.{wait_graph, add_edge, edge_in, chain_finding, blocking_chain}
use dbprobe.Findings.Rules.{mysql_rules}
use dbprobe.Findings.Rules.Bodies.{
  is_severity, Reports, severity_iff, long_transaction-Reports, missing_primary_key-Reports,
  auto_increment_exhaustion-Reports, purge_lag-Reports, lock_wait_long-Reports,
  replication_apply_lag-Reports, replication_error-Reports, query_full_scan-Reports,
  query_amplification-Reports, buffer_pool_hit-Reports, no_good_index-Reports,
  disk_temp_table-Reports, redo_pressure-Reports, deadlock_rate-Reports,
  query_high_total_time-Reports, unused_index-Reports, redundant_index-Reports,
  replication_stopped-Reports, lock_contention-Reports,
}
use dbprobe.Sdk.Finding.{Finding, AnalysisContext, Rule}
use dbprobe.Sdk.Number.{Float64}
use dbprobe.Sdk.Signal.{Ref, Observation}

module _ {N : Type 0} where
  -- A finding with an identity, a known severity, and evidence from the current observations.
  abbrev pub IsReported : String → List (Observation N) → Finding N → Type 0
  IsReported id current y =
      (y.id ≡ id) × (is_severity y.severity ≡ true) × All (λ o. Mem o current) y.evidence

  from_none :
      {id : String} (current : List (Observation N)) (y : Finding N)
      → Reports id [] y
      → IsReported id current y
  from_none current y (own, severe, shown) =
      (own, severe, subst (All (λ o. Mem o current)) (sym shown) tt)

  from_one :
      {id : String} (current : List (Observation N)) (x : Observation N) (y : Finding N)
      → Mem x current
      → Reports id (x ∷ []) y
      → IsReported id current y
  from_one current x y m (own, severe, shown) =
      (own, severe, subst (All (λ o. Mem o current)) (sym shown) (m, tt))

  collect_none :
      {X : Type 0} {id : String} (current : List (Observation N)) (body : X → Option (Finding N))
      (xs : List X)
      → ((x : X) (y : Finding N) → body x ≡ some y → Reports id [] y)
      → All (IsReported id current) (collect body xs)
  collect_none current body xs h = All-collect _ body xs (λ x m y e. from_none current y (h x y e))

  collect_one :
      {id : String} (body : Observation N → Option (Finding N)) (current : List (Observation N))
      → ((x : Observation N) (y : Finding N) → body x ≡ some y → Reports id (x ∷ []) y)
      → All (IsReported id current) (collect body current)
  collect_one body current h =
      All-collect _ body current (λ x m y e. from_one current x y m (h x y e))

  first_number-mem :
      (obs : List (Observation N)) (key : String) (ref : Option Ref) {e : Observation N × N}
      → first_number obs key ref ≡ some e
      → Mem e.0 obs
  unfolding first_number
  first_number-mem [] key ref h = absurd (ground arith)
  first_number-mem (o ∷ obs) key ref {e = z} h = elim (Option-cases o.number) [
    | inl e ↦ mem-cons_of_mem o (first_number-mem obs key ref {e = z} (ground (arith, e)))
    | inr (n, e) ↦ elim (Bool-cases (not (o.key == key) || is_other ref o.object)) [
      | inl b ↦ mem-cons_of_mem o (first_number-mem obs key ref {e = z} (ground (arith, e, b)))
      | inr b ↦
          let found : (o, n) ≡ z = ground (arith, e, b) in
          subst (λ p. Mem p.0 (o ∷ obs)) found mem-cons_self
    ]
  ]

  wait_graph_evidence :
      (P : Observation N → Type 0) (current : List (Observation N))
      (graph : GoMap (List String) × List (Observation N))
      → All P current
      → All P graph.1
      → All P (wait_graph current graph).1
  unfolding wait_graph add_edge
  wait_graph_evidence P [] graph h k = k
  wait_graph_evidence P (o ∷ current) graph h k =
      wait_graph_evidence P current (add_edge o (edge_in o) graph) h.1
        (add_edge_evidence (edge_in o) graph k)
    where
      add_edge_evidence :
          (e : Option (String × String)) (graph : GoMap (List String) × List (Observation N))
          → All P graph.1
          → All P (add_edge o e graph).1
      add_edge_evidence none (a, ev) k = k
      add_edge_evidence (some (r, b)) (a, ev) k = All-append P ev (o ∷ []) k (h.0, tt)

module _ {N : Type 0} ⦃f : Float64 N⦄ where
  full_scan_heavy_table-IsReported :
      (current : List (Observation N)) (x : DeltaGroup N) (y : Finding N)
      → full_scan_heavy_table current x ≡ some y
      → IsReported "mysql.full_scan_heavy_table" current y
  unfolding full_scan_heavy_table severity_from
  full_scan_heavy_table-IsReported current x y h =
      elim (Option-cases (first_number current "mysql.table.estimated_rows" (some x.ref))) [
        | inl e ↦ absurd (ground (arith, e))
        | inr (o, e) ↦
            let r : Reports "mysql.full_scan_heavy_table" (o.0 ∷ []) y =
              ground (arith, e, severity_iff y.severity) in
            from_one current o.0 y (first_number-mem current _ _ e) r
      ]

  unused_since-IsReported :
      (current : List (Observation N)) (found : Option (Observation N × N))
      → All (IsReported "mysql.unused_index" current) (unused_since current found)
  unfolding unused_since
  unused_since-IsReported current none = tt
  unused_since-IsReported current (some (o, uptime)) =
      elim (Bool-cases (f.lt uptime (f.lit 3600 0))) [
        | inl b ↦ rw b tt
        | inr b ↦ rw b (
            collect_none current (unused_index uptime (index_states current)) _
              (unused_index-Reports uptime (index_states current)))
      ]

  chain_finding-IsReported :
      (decimal : ℕ → String) (current : List (Observation N)) (d : ℕ)
      (evidence : List (Observation N))
      → All (λ o. Mem o current) evidence
      → All (IsReported "mysql.blocking_chain" current) (chain_finding decimal d evidence)
  unfolding chain_finding
  chain_finding-IsReported decimal current d evidence h = elim (Bool-cases (ltb d 2)) [
    | inl e ↦ rw e tt
    | inr e ↦
        rw e ((refl, elim (Bool-cases (leb 3 d)) [ inl c ↦ rw c refl | inr c ↦ rw c refl ], h), tt)
  ]

  -- A rule whose findings, in every context, carry its identity, have a known severity, and show
  -- nothing but observations of that context.
  abbrev pub IsSound : Rule N → Type 0
  IsSound r = (ctx : AnalysisContext N) → All (IsReported r.id ctx.current) (r.evaluate ctx)

  -- Each finding that a rule of the adapter for MySQL reports carries that rule's identity, has the
  -- severity "info", "warn" or "critical", and shows only observations that the rule was given.
  pub mysql_rules-IsSound :
      (quote : String → String) (decimal : ℕ → String) → All IsSound (mysql_rules quote decimal)
  unfolding redundant_indexes stopped_channels contended_tables unused_indexes blocking_chain
  mysql_rules-IsSound quote decimal = (
    (λ ctx. collect_one _ ctx.current long_transaction-Reports),
    (
      (λ ctx. collect_none ctx.current _ _ query_full_scan-Reports),
      (
        (λ ctx. collect_none ctx.current _ _ query_amplification-Reports),
        (
          (λ ctx. unused_since-IsReported ctx.current _),
          (
            (λ ctx. collect_none ctx.current _ _ (redundant_index-Reports _ _)),
            (
              (λ ctx. collect_none ctx.current _ _ buffer_pool_hit-Reports),
              (
                (λ ctx. collect_none ctx.current _ _ (replication_stopped-Reports quote _)),
                (
                  (λ ctx. collect_one _ ctx.current replication_error-Reports),
                  (
                    (λ ctx. collect_none ctx.current _ _ (lock_contention-Reports _)),
                    (
                      (λ ctx. collect_one _ ctx.current missing_primary_key-Reports),
                      (
                        (λ ctx. collect_one _ ctx.current auto_increment_exhaustion-Reports),
                        (
                          (λ ctx. collect_none ctx.current _ _ no_good_index-Reports),
                          (
                            (λ ctx. collect_none ctx.current _ _ disk_temp_table-Reports),
                            (
                              (λ ctx. collect_none ctx.current _ _ redo_pressure-Reports),
                              (
                                (λ ctx. collect_none ctx.current _ _ deadlock_rate-Reports),
                                (
                                  (λ ctx.
                                      All-collect _ _ _
                                        (λ x m. full_scan_heavy_table-IsReported ctx.current x)),
                                  (
                                    (λ ctx.
                                        collect_none ctx.current _ _
                                          (query_high_total_time-Reports ctx.deltas)),
                                    (
                                      (λ ctx. collect_one _ ctx.current lock_wait_long-Reports),
                                      (
                                        (λ ctx. chain_finding-IsReported decimal ctx.current _ _ (
                                            wait_graph_evidence (λ o. Mem o ctx.current) ctx.current
                                              ([], []) (All-mem ctx.current) tt)),
                                        (
                                          (λ ctx.
                                              collect_one _ ctx.current
                                                replication_apply_lag-Reports),
                                          (
                                            (λ ctx. collect_one _ ctx.current purge_lag-Reports),
                                            tt,
                                          ),
                                        ),
                                      ),
                                    ),
                                  ),
                                ),
                              ),
                            ),
                          ),
                        ),
                      ),
                    ),
                  ),
                ),
              ),
            ),
          ),
        ),
      ),
    ),
  )
