-- ===== src/Temporal/Diff/Identity.antt =====
-- The map that `Compare` reads, described by the observations with a given identity.
use dbprobe.Base.{
  String, ℕ, ◌+◌, Option, none, some, Bool, true, ◌&&◌, ◌||◌, List, [], ◌∷◌, ◌==◌, ◌≡◌, refl, arith,
  eq_iff, ltb, ◌∙◌, Bool-cases, inl, inr,
}
use dbprobe.Base.GoMap.{GoMap, lookup, insert, lookup-insert}
use dbprobe.Base.Lists.{filter, length}
use dbprobe.Sdk.Signal.{Observation}
use dbprobe.Temporal.Diff.{
  observation_identity, mark_repeated, scan_observations, observation_map, flag,
}

module _ {N : Type 0} where
  -- The observations that share an identity, in order.
  abbrev pub sharing : String → List (Observation N) → List (Observation N)
  sharing k = filter (λ o. observation_identity o == k)

  abbrev pub last_of : Option (Observation N) → List (Observation N) → Option (Observation N)
  last_of o [] = o
  last_of o (x ∷ xs) = last_of (some x) xs

  abbrev pub presence : Option (Observation N) → ℕ
  presence none = 0
  presence (some o) = 1

  scan-last :
      (l : List (Observation N)) (out : GoMap (Observation N)) (amb : GoMap Bool) (k : String)
      → lookup (scan_observations l out amb).0 k ≡ last_of (lookup out k) (sharing k l)
  unfolding scan_observations
  scan-last [] out amb k = refl
  scan-last (o ∷ l) out amb k =
      let id = observation_identity o in
      scan-last l (insert id o out) (mark_repeated (lookup out id) id amb) k
      ∙ rw lookup-insert (elim (Bool-cases (id == k)) [ inl e ↦ rw e refl | inr e ↦ rw e refl ])

  flag-mark :
      (old : Option (Observation N)) (id k : String) (amb : GoMap Bool)
      → flag (mark_repeated old id amb) k ≡ (flag amb k || ((id == k) && ltb 0 (presence old)))
  unfolding flag mark_repeated
  flag-mark none id k amb = ground arith
  flag-mark (some o) id k amb = ground (arith, lookup-insert id k true amb)

  scan-flag :
      (l : List (Observation N)) (out : GoMap (Observation N)) (amb : GoMap Bool) (k : String)
      → flag (scan_observations l out amb).1 k
        ≡ (flag amb k || ltb 1 (presence (lookup out k) + length (sharing k l)))
  unfolding scan_observations
  scan-flag [] out amb k = ground arith
  scan-flag (o ∷ l) out amb k =
      let id = observation_identity o in
      ground (
        arith,
        scan-flag l (insert id o out) (mark_repeated (lookup out id) id amb) k,
        flag-mark (lookup out id) id k amb,
        lookup-insert id k o out,
        eq_iff id k,
      )

  -- The map holds the last observation of each identity.
  pub lookup-observation_map :
      (l : List (Observation N)) (k : String)
      → lookup (observation_map l).0 k ≡ last_of none (sharing k l)
  unfolding observation_map lookup
  lookup-observation_map l k = scan-last l [] [] k

  -- An identity is ambiguous exactly when two observations share it.
  pub flag-observation_map :
      (l : List (Observation N)) (k : String)
      → flag (observation_map l).1 k ≡ ltb 1 (length (sharing k l))
  unfolding observation_map lookup flag
  flag-observation_map l k = ground (arith, scan-flag l [] [] k)
