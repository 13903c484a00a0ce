-- ===== src/Findings/Groups/Laws.antt =====
-- What the groups of deltas hold.
use dbprobe.Base.{
  String, Option, none, some, Bool, true, false, ◌&&◌, List, [], ◌∷◌, ◌==◌, ◌≡◌, refl, arith,
  eq_iff, ◌∙◌, ap, if◌then◌else◌, Option-cases, Bool-cases, ◌⊎◌, inl, inr,
}
use dbprobe.Base.GoMap.{GoMap, lookup, insert, lookup-insert}
use dbprobe.Base.Lists.{filter}
use dbprobe.Findings.Groups.{DeltaGroup, group_key, group_or_new, add_deltas, group_deltas}
use dbprobe.Sdk.Signal.{Delta}

module _ {N : Type 0} where
  -- a read `out[id].values[key]`
  abbrev pub value_in : Option (DeltaGroup N) → String → Option N
  value_in none key = none
  value_in (some g) key = lookup g.values key

  -- The deltas of one object and key.
  abbrev pub deltas_of : String → String → List (Delta N) → List (Delta N)
  deltas_of id key = filter (λ d. (group_key d.object == id) && (d.key == key))

  abbrev pub last_delta : Option N → List (Delta N) → Option N
  last_delta old [] = old
  last_delta old (d ∷ ds) = last_delta (some d.delta) ds

  put_delta : (d : Delta N) (out : GoMap (DeltaGroup N)) → GoMap (DeltaGroup N)
  put_delta d out =
      let g = group_or_new d.object (lookup out (group_key d.object)) in
      insert (group_key d.object) (record g { values = insert d.key d.delta g.values }) out

  lookup-nil : (key : String) → lookup {V = N} [] key ≡ none
  unfolding lookup
  lookup-nil key = refl

  value-put :
      (d : Delta N) (out : GoMap (DeltaGroup N)) (id key : String)
      → value_in (lookup (put_delta d out) id) key ≡ (
          if (group_key d.object == id) && (d.key == key)
          then some d.delta
          else value_in (lookup out id) key)
  unfolding put_delta
  value-put d out id key = elim (Option-cases (lookup out (group_key d.object))) [
    | inl e ↦ ground (
      arith,
      e,
      lookup-insert (group_key d.object) id
          (record { ref = d.object; values = insert d.key d.delta [] }) out,
      lookup-insert d.key key d.delta [],
      lookup-nil key,
      eq_iff (group_key d.object) id,
    )
    | inr (g, e) ↦ ground (
      arith,
      e,
      lookup-insert (group_key d.object) id (record g { values = insert d.key d.delta g.values })
          out,
      lookup-insert d.key key d.delta g.values,
      eq_iff (group_key d.object) id,
    )
  ]

  value-add_deltas :
      (ds : List (Delta N)) (out : GoMap (DeltaGroup N)) (id key : String)
      → value_in (lookup (add_deltas ds out) id) key
        ≡ last_delta (value_in (lookup out id) key) (deltas_of id key ds)
  unfolding add_deltas put_delta
  value-add_deltas [] out id key = refl
  value-add_deltas (d ∷ ds) out id key =
      value-add_deltas ds (put_delta d out) id key
      ∙ ap (λ o. last_delta o (deltas_of id key ds)) (value-put d out id key)
      ∙ taken (Bool-cases ((group_key d.object == id) && (d.key == key)))
    where
      old : Option N
      old = value_in (lookup out id) key

      is_its : Bool
      is_its = (group_key d.object == id) && (d.key == key)

      taken :
          (is_its ≡ true) ⊎ (is_its ≡ false)
          → last_delta (if is_its then some d.delta else old) (deltas_of id key ds)
            ≡ last_delta old (if is_its then d ∷ deltas_of id key ds else deltas_of id key ds)
      taken (inl e) = rw e refl
      taken (inr e) = rw e refl

  -- The value that `groupDeltas` has for an object and a key is that of the last delta of the two.
  pub value-group_deltas :
      (ds : List (Delta N)) (id key : String)
      → value_in (lookup (group_deltas ds) id) key ≡ last_delta none (deltas_of id key ds)
  unfolding group_deltas lookup
  value-group_deltas ds id key = value-add_deltas ds [] id key
