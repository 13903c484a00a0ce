-- ===== src/Registry/Laws.antt =====
-- When the registry takes a list of adapters.
use mathlib.Core.List.{Nodup, Nodup-nil, Nodup-cons, Mem}
use dbprobe.Base.{
  String, none, false, List, [], ◌∷◌, ◌==◌, ◌≡◌, ◌≢◌, refl, arith, eq_iff, map, inl, inr,
  Option-cases,
}
use dbprobe.Base.Contains.{contains, contains_iff}
use dbprobe.Base.Lists.{All}
use dbprobe.Base.GoMap.{GoMap, lookup, insert, lookup-insert}
use dbprobe.Registry.{Adapter, Registry, contract_version, refusal, new_registry}

-- An adapter with an identity that speaks this contract.
abbrev pub IsUsable : Adapter → Type 0
IsUsable a = (a.metadata.id ≢ "") × (a.metadata.contract_version ≡ contract_version)

abbrev ids : List Adapter → List String
ids = map (λ a. a.metadata.id)

-- The loop ends with no refusal: the adapters are usable, and their identities are not among those
-- that were seen.
abbrev IsFree : GoMap (Unit {0}) → Adapter → Type 0
IsFree seen a = IsUsable a × (lookup seen a.metadata.id ≡ none)

IsFree-insert :
    (k : String) (seen : GoMap (Unit {0})) (a : Adapter)
    → IsFree (insert k tt seen) a
    → IsFree seen a × ((a.metadata.id == k) ≡ false)
IsFree-insert k seen a (usable, free) = (
  (usable, ground (arith, lookup-insert k a.metadata.id tt seen)),
  ground (
    arith,
    lookup-insert k a.metadata.id tt seen,
    eq_iff a.metadata.id k,
    eq_iff k a.metadata.id,
  ),
)

IsFree-tail :
    (k : String) (seen : GoMap (Unit {0})) (l : List Adapter)
    → All (IsFree (insert k tt seen)) l
    → All (IsFree seen) l × (contains (ids l) k ≡ false)
IsFree-tail k seen [] h = (tt, refl)
IsFree-tail k seen (a ∷ l) (h, t) =
    let (free, other) = IsFree-insert k seen a h in
    let (rest, out) = IsFree-tail k seen l t in ((free, rest), rw (other, out) refl)

not_mem : (k : String) (l : List String) → contains l k ≡ false → Mem k l → ⊥
not_mem k l h m = absurd (ground (arith, h, (contains_iff l k).1 m))

refusal-none :
    (l : List Adapter) (seen : GoMap (Unit {0}))
    → refusal l seen ≡ none
    → All (IsFree seen) l × Nodup (ids l)
unfolding refusal
refusal-none [] seen h = (tt, Nodup-nil)
refusal-none (a ∷ l) seen h =
    let (free, distinct) = refusal-none l (insert a.metadata.id tt seen) (ground arith) in
    let (rest, out) = IsFree-tail a.metadata.id seen l free in
    (
      (
        (
          (
            ground (arith, eq_iff a.metadata.id ""),
            ground (arith, eq_iff a.metadata.contract_version contract_version),
          ),
          ground arith,
        ),
        rest,
      ),
      Nodup-cons.1 (not_mem a.metadata.id (ids l) out, distinct),
    )

IsUsable-of_free :
    (l : List Adapter) (seen : GoMap (Unit {0})) → All (IsFree seen) l → All IsUsable l
IsUsable-of_free [] seen h = tt
IsUsable-of_free (a ∷ l) seen (h, t) = (h.0, IsUsable-of_free l seen t)

-- A registry that `New` returns has the adapters that it was given; each has an identity and speaks
-- this contract, and no two have one identity.
pub new_registry-AreUsable :
    (l : List Adapter) {r : Registry}
    → new_registry l ≡ inl r
    → (r.adapters ≡ l) × All IsUsable r.adapters × Nodup (map (λ a. a.metadata.id) r.adapters)
unfolding new_registry
new_registry-AreUsable l {r} h = elim (Option-cases (refusal l [])) [
  | inl e ↦
      let (free, distinct) = refusal-none l [] e in
      let same : r.adapters ≡ l = ground (arith, e) in
      (same, rw same (IsUsable-of_free l [] free), rw same distinct)
  | inr (x, e) ↦ absurd (ground (arith, e))
]
