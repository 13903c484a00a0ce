-- ===== src/Base/Text.antt =====
-- The order that Go's `<` gives strings: by bytes, which for valid UTF-8 is by code points.
use Prim.Native.Nat.{Ordering, compare as compare_ℕ}
use Prim.Native.Char.{Char, code}
use Prim.Native.String.compare
use Prim.Native.String.{String, [], ◌∷◌, compare, then}
use mathlib.Core.Path.{◌≡◌}
use mathlib.Core.Bool.{Bool, true, false}
use mathlib.Core.HLevel.{hedberg}
use mathlib.Core.Logic.{inl, inr}
use native.Mathlib.Omega.{arith}
use dbprobe.Base.Tests.{Bool-cases}
use text.Mathlib.Text.{is_lt, ◌==◌}
use text.Mathlib.TextEquality.{path_by_compare, eq_iff}

abbrev pub str_lt : String → String → Bool
str_lt s t = is_lt (compare s t)

String_discrete : Discrete String
String_discrete s t = elim (Bool-cases (s == t)) [
  | inl e ↦ yes ((eq_iff s t).0 e)
  | inr e ↦ no λ h. ground (arith, eq_iff s t)
]

pub String_set : IsSet String
String_set = hlevel (hedberg, String_discrete)

cons-cons :
    (c d : Char) (s t : String)
    → compare (c ∷ s) (d ∷ t) ≡ then (compare_ℕ (code c) (code d)) (compare s t)
cons-cons c d s t = λ i. compare.cons-cons c d s t i

nil-nil : compare [] [] ≡ Ordering.eq
nil-nil = λ i. compare.nil-nil i

nil-cons : (c : Char) (s : String) → compare [] (c ∷ s) ≡ Ordering.lt
nil-cons c s = λ i. compare.nil-cons c s i

cons-nil : (c : Char) (s : String) → compare (c ∷ s) [] ≡ Ordering.gt
cons-nil c s = λ i. compare.cons-nil c s i

-- One string is never before another that is before it.
pub str_lt-asym : (s t : String) → str_lt s t ≡ true → str_lt t s ≡ false
str_lt-asym [] [] h = ground (arith, nil-nil)
str_lt-asym [] (d ∷ t) h = ground (arith, cons-nil d t)
str_lt-asym (c ∷ s) [] h = ground (arith, cons-nil c s)
str_lt-asym (c ∷ s) (d ∷ t) h =
    ground (arith, cons-cons c d s t, cons-cons d c t s, str_lt-asym s t)

-- A string that is not before another, which is not before a third, is not before the third.
pub str_lt-cotrans : (s t u : String) → str_lt t s ≡ false → str_lt u t ≡ false → str_lt u s ≡ false
str_lt-cotrans [] [] u h k = k
str_lt-cotrans [] (d ∷ t) [] h k = ground (arith, nil-nil)
str_lt-cotrans [] (d ∷ t) (e ∷ u) h k = ground (arith, cons-nil e u)
str_lt-cotrans (c ∷ s) [] u h k = ground (arith, nil-cons c s)
str_lt-cotrans (c ∷ s) (d ∷ t) [] h k = ground (arith, nil-cons d t)
str_lt-cotrans (c ∷ s) (d ∷ t) (e ∷ u) h k =
    ground (arith, cons-cons d c t s, cons-cons e d u t, cons-cons e c u s, str_lt-cotrans s t u)

compare-eq_of_not-lt :
    (s t : String) → str_lt s t ≡ false → str_lt t s ≡ false → compare s t ≡ Ordering.eq
compare-eq_of_not-lt [] [] h k = nil-nil
compare-eq_of_not-lt [] (d ∷ t) h k = ground (arith, nil-cons d t)
compare-eq_of_not-lt (c ∷ s) [] h k = ground (arith, nil-cons c s)
compare-eq_of_not-lt (c ∷ s) (d ∷ t) h k =
    ground (arith, cons-cons c d s t, cons-cons d c t s, compare-eq_of_not-lt s t)

-- Strings that are not before each other are equal.
pub str_lt-antisym : (s t : String) → str_lt s t ≡ false → str_lt t s ≡ false → s ≡ t
str_lt-antisym s t h k = path_by_compare s t (compare-eq_of_not-lt s t h k)

pub str_eq_comm : (s t : String) → (s == t) ≡ (t == s)
str_eq_comm s t = ground (arith, eq_iff s t, eq_iff t s)
