-- ===== src/Base/GoMap.antt =====
-- Go's `map[string]V`, as an association list with each key once. Go leaves the order of a `range`
-- open; here it is the order of first insertion, and a result that a sort follows does not depend
-- on it (`Sort.sort_strings-eq_of_perm`).
use Prim.Native.String.{String}
use mathlib.Core.Bool.{false}
use mathlib.Core.Path.{◌≡◌, refl, sym}
use mathlib.Core.Option.{Option, none, some}
use mathlib.Core.List.{
  List, [], ◌∷◌, map, Mem, not-mem-nil, mem-cons, mem-cons_of_mem, Nodup, Nodup-nil, Nodup-cons,
}
use mathlib.Core.HLevel.{¬_prop}
use mathlib.Core.Logic.{◌≢◌, ◌↔◌, inl, inr}
use mathlib.Core.Logic.Or
use native.Mathlib.Omega.{arith}
use text.Mathlib.Text.{◌==◌}
use text.Mathlib.TextEquality.{eq_iff}
use text.Mathlib.TextPositions.{eq_refl}
use dbprobe.Base.Lists.{All, All-imp₂}
use dbprobe.Base.Tests.{if◌then◌else◌, Bool-cases}

abbrev pub GoMap {ℓ} : Type ℓ → Type ℓ
GoMap V = List (String × V)

abbrev pub keys {ℓ} : {V : Type ℓ} → GoMap V → List String
keys = map (λ e. e.0)

module _ {ℓ} {V : Type ℓ} where
  -- `m[k]`, with its second result
  unfoldable pub lookup : GoMap V → String → Option V
  lookup [] k = none
  lookup ((j, v) ∷ m) k = if j == k then some v else lookup m k

  -- `m[k] = v`
  unfoldable pub insert : String → V → GoMap V → GoMap V
  insert key value [] = (key, value) ∷ []
  insert key value (entry ∷ rest) =
      if entry.0 == key then (key, value) ∷ rest else entry ∷ insert key value rest

  -- a read after a write
  pub lookup-insert :
      (key other : String) (value : V) (entries : GoMap V)
      → lookup (insert key value entries) other
        ≡ (if key == other then some value else lookup entries other)
  unfolding lookup insert
  lookup-insert key other value [] = refl
  lookup-insert key other value ((at, old) ∷ rest) =
      let tail = lookup-insert key other value rest in
      ground (arith, tail, eq_iff at other, eq_iff at key, eq_iff key other)

  lookup_of_mem : (k : String) (m : GoMap V) → Mem k (keys m) → lookup m k ≢ none
  unfolding lookup
  lookup_of_mem k [] h = absurd (not-mem-nil h)
  lookup_of_mem k ((j, v) ∷ m) h =
      Or.elim (¬_prop) (mem-cons.0 h) (λ e. ground (arith, eq_iff j k))
        (λ t. ground (arith, lookup_of_mem k m t))

  mem_of_lookup : (k : String) (m : GoMap V) → lookup m k ≢ none → Mem k (keys m)
  unfolding lookup
  mem_of_lookup k [] h = absurd (h refl)
  mem_of_lookup k ((j, v) ∷ m) h = elim (Bool-cases (j == k)) [
    | inl e ↦ mem-cons.1 (Or.inl (sym ((eq_iff j k).0 e)))
    | inr e ↦ mem-cons_of_mem j (mem_of_lookup k m (ground arith))
  ]

  -- A key is in the map exactly when a read finds it.
  pub mem-keys_iff : (k : String) (m : GoMap V) → Mem k (keys m) ↔ (lookup m k ≢ none)
  mem-keys_iff k m = (lookup_of_mem k m, mem_of_lookup k m)

  pub keys-insert_self :
      (k : String) (v : V) (m : GoMap V) → lookup m k ≢ none → keys (insert k v m) ≡ keys m
  unfolding lookup insert
  keys-insert_self k v [] h = absurd (h refl)
  keys-insert_self k v ((j, w) ∷ m) h = ground (arith, eq_iff j k, keys-insert_self k v m)

  pub keys-insert-Nodup :
      (k : String) (v : V) (m : GoMap V) → Nodup (keys m) → Nodup (keys (insert k v m))
  unfolding insert lookup
  keys-insert-Nodup k v [] n = Nodup-cons.1 (not-mem-nil, Nodup-nil)
  keys-insert-Nodup k v ((j, w) ∷ m) n = elim (Bool-cases (j == k)) [
    | inl e ↦ rw e (rw (← (eq_iff j k).0 e) n)
    | inr e ↦ rw e (
        Nodup-cons.1 (
          λ h. (Nodup-cons.0 n).0 (
              mem_of_lookup j m (λ z.
                lookup_of_mem j (insert k v m) h
                  (ground (arith, lookup-insert k j v m, eq_iff j k, eq_iff k j)))),
          keys-insert-Nodup k v m (Nodup-cons.0 n).1,
        ))
  ]

  fresh_ne : (k : String) (m : GoMap V) → ¬ Mem k (keys m) → All (λ e. (k == e.0) ≡ false) m
  fresh_ne k [] h = tt
  fresh_ne k ((j, v) ∷ m) h = (
    ground (arith, eq_iff k j, λ (e : k ≡ j). h (mem-cons.1 (Or.inl e))),
    fresh_ne k m (λ t. h (mem-cons_of_mem j t)),
  )

  -- A `range` over a map hands out each key with the value that a read of the key gives.
  pub entries-lookup : (m : GoMap V) → Nodup (keys m) → All (λ e. lookup m e.0 ≡ some e.1) m
  unfolding lookup
  entries-lookup [] n = tt
  entries-lookup ((k, v) ∷ m) n =
      let tail = Nodup-cons.0 n in
      (
        rw (eq_refl k) refl,
        All-imp₂ (λ e. lookup ((k, v) ∷ m) e.0 ≡ some e.1) (λ e ne at. rw ne at) m
            (fresh_ne k m tail.0) (entries-lookup m tail.1),
      )
