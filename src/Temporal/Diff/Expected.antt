-- ===== src/Temporal/Diff/Expected.antt =====
-- The changes between two lists of observations, stated with no map and no loop, and the proof that
-- `Compare` returns them.
use mathlib.Core.List.{Mem, mem-append}
use mathlib.Core.Logic.Iff
use mathlib.Core.Logic.Or
use dbprobe.Base.{
  String, Option, none, some, true, ◌||◌, List, [], ◌∷◌, ◌==◌, if◌then◌else◌, ◌≡◌, ◌≢◌, ◌↔◌, refl,
  arith, eq_iff, ltb, Bool-cases, inl, inr, map, ◌++◌,
}
use dbprobe.Base.Contains.{contains, contains_iff}
use dbprobe.Base.GoMap.{GoMap, keys, insert, mem-keys_iff}
use dbprobe.Base.Lists.{length}
use dbprobe.Base.Outcome.{ok}
use dbprobe.Base.Sort.{sort_strings}
use dbprobe.Sdk.Capability.{add_all}
use dbprobe.Sdk.Capability.Laws.{sort_strings-add_all_ext}
use dbprobe.Sdk.Number.{Float64}
use dbprobe.Sdk.Signal.{Observation}
use dbprobe.Temporal.Diff.{
  Change, observation_identity, observation_map, change_of, changes_at, compare,
}
use dbprobe.Temporal.Diff.Identity.{sharing, last_of, lookup-observation_map, flag-observation_map}
use dbprobe.Temporal.Snapshot.{Snapshot}

add_all-append :
    (vs ws : List String) (m : GoMap (Unit {0})) → add_all ws (add_all vs m) ≡ add_all (vs ++ ws) m
unfolding add_all
add_all-append [] ws m = refl
add_all-append (v ∷ vs) ws m = add_all-append vs ws (insert v tt m)

mem-append_iff :
    {k : String} {a b c d : List String}
    → Mem k a ↔ Mem k c
    → Mem k b ↔ Mem k d
    → Mem k (a ++ b) ↔ Mem k (c ++ d)
mem-append_iff h g = (
  λ m. mem-append.1 (Or.imp h.0 g.0 (mem-append.0 m)),
  λ m. mem-append.1 (Or.imp h.1 g.1 (mem-append.0 m)),
)

mem-append_comm : {k : String} (a b : List String) → Mem k (a ++ b) → Mem k (b ++ a)
mem-append_comm a b m = (mem-append {s = b} {t = a}).1 (Or.symm ((mem-append {s = a} {t = b}).0 m))

module _ {N : Type 0} where
  abbrev pub identities : List (Observation N) → List String
  identities = map observation_identity

  -- Every identity of either list, once, in order.
  unfoldable pub all_identities : List (Observation N) → List (Observation N) → List String
  all_identities p c = sort_strings (keys (add_all (identities p ++ identities c) []))

  pub all_identities_comm : (p c : List (Observation N)) → all_identities p c ≡ all_identities c p
  unfolding all_identities
  all_identities_comm p c = sort_strings-add_all_ext _ _ (λ k. (
    mem-append_comm (identities p) (identities c),
    mem-append_comm (identities c) (identities p),
  ))

  last_of-some : (o : Observation N) (l : List (Observation N)) → last_of (some o) l ≢ none
  last_of-some o [] = ground arith
  last_of-some o (x ∷ l) = last_of-some x l

  last_iff :
      (k : String) (l : List (Observation N))
      → (last_of none (sharing k l) ≢ none) ↔ (contains (identities l) k ≡ true)
  last_iff k [] = ground arith
  last_iff k (o ∷ l) = elim (Bool-cases (observation_identity o == k)) [
    | inl e ↦ rw e (λ _. refl, λ _. last_of-some o (sharing k l))
    | inr e ↦ rw e (last_iff k l)
  ]

  mem-keys-observation_map :
      (k : String) (l : List (Observation N))
      → Mem k (keys (observation_map l).0) ↔ Mem k (identities l)
  mem-keys-observation_map k l =
      Iff.trans (mem-keys_iff k (observation_map l).0)
        (Iff.trans (rw (lookup-observation_map l k) (last_iff k l)) (contains_iff (identities l) k))

  ordered-eq :
      (p c : List (Observation N))
      → sort_strings
          (keys (add_all (keys (observation_map c).0) (add_all (keys (observation_map p).0) [])))
        ≡ all_identities p c
  unfolding all_identities
  ordered-eq p c = rw add_all-append (
      sort_strings-add_all_ext _ _
        (λ k. mem-append_iff (mem-keys-observation_map k p) (mem-keys-observation_map k c)))

module _ {N : Type 0} ⦃f : Float64 N⦄ where
  -- What one identity contributes: nothing if either list has it more than once.
  abbrev pub difference : List (Observation N) → List (Observation N) → Option (Change N)
  difference [] [] = none
  difference [] (a ∷ []) = change_of none (some a)
  difference (b ∷ []) [] = change_of (some b) none
  difference (b ∷ []) (a ∷ []) = change_of (some b) (some a)
  difference _ _ = none

  abbrev pub gather : (String → Option (Change N)) → List String → List (Change N)
  gather g [] = []
  gather g (k ∷ ks) = let rest = gather g ks in elim (g k) [ none ↦ rest | some x ↦ x ∷ rest ]

  abbrev pub expected_changes : List (Observation N) → List (Observation N) → List (Change N)
  expected_changes p c = gather (λ k. difference (sharing k p) (sharing k c)) (all_identities p c)

  select : (p c : List (Observation N)) → Option (Change N)
  select p c =
      if ltb 1 (length p) || ltb 1 (length c)
      then none
      else change_of (last_of none p) (last_of none c)

  select-eq-difference : (p c : List (Observation N)) → select p c ≡ difference p c
  unfolding select change_of
  select-eq-difference [] [] = refl
  select-eq-difference [] (a ∷ []) = refl
  select-eq-difference [] (a ∷ a' ∷ c) = ground arith
  select-eq-difference (b ∷ []) [] = refl
  select-eq-difference (b ∷ []) (a ∷ []) = refl
  select-eq-difference (b ∷ []) (a ∷ a' ∷ c) = ground arith
  select-eq-difference (b ∷ b' ∷ p) c = ground arith

  changes_at-gather :
      (p c : List (Observation N)) (ks : List String)
      → changes_at (observation_map p) (observation_map c) ks
        ≡ gather (λ k. difference (sharing k p) (sharing k c)) ks
  unfolding changes_at select
  changes_at-gather p c [] = refl
  changes_at-gather p c (k ∷ ks) = ground (
    arith,
    flag-observation_map p k,
    flag-observation_map c k,
    lookup-observation_map p k,
    lookup-observation_map c k,
    select-eq-difference (sharing k p) (sharing k c),
    changes_at-gather p c ks,
  )

  pub record SameTarget (previous current : Snapshot N) : Type 0 where
    pub named : previous.target_fingerprint ≢ ""
    pub shared : previous.target_fingerprint ≡ current.target_fingerprint

  -- For two snapshots of one named target, `Compare` answers with their identities and, for each
  -- observation identity in sorted order that neither snapshot has twice, the difference between the
  -- observation before and the one after, where there is a difference.
  pub compare-eq-expected :
      (previous current : Snapshot N)
      → SameTarget previous current
      → compare previous current
        ≡ ok (record {
          previous_snapshot_id = previous.id;
          current_snapshot_id = current.id;
          changes = expected_changes previous.observations current.observations;
        })
  unfolding compare
  compare-eq-expected p c t = ground (
    arith,
    eq_iff p.target_fingerprint "",
    eq_iff c.target_fingerprint "",
    eq_iff p.target_fingerprint c.target_fingerprint,
    t.named,
    t.shared,
    ordered-eq p.observations c.observations,
    changes_at-gather p.observations c.observations (all_identities p.observations c.observations),
  )
