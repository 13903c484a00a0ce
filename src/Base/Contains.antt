-- ===== src/Base/Contains.antt =====
-- Membership of strings as a Boolean test, and as the library's proposition.
use mathlib.Core.List.{List, [], ◌∷◌, Mem, not-mem-nil, mem-cons, mem-cons_of_mem}
use mathlib.Core.Logic.Or
use mathlib.Core.Logic.{◌↔◌, inl, inr}
use mathlib.Core.Bool.{Bool, true, false, Bool-set, ◌||◌}
use mathlib.Core.Path.{◌≡◌, sym}
use native.Mathlib.Omega.{arith}
use Prim.Native.String.{String}
use text.Mathlib.Text.{◌==◌}
use text.Mathlib.TextEquality.{eq_iff}
use dbprobe.Base.Tests.{Bool-cases}

abbrev pub contains : List String → String → Bool
contains [] k = false
contains (v ∷ vs) k = (v == k) || contains vs k

mem_of_contains : (vs : List String) (k : String) → contains vs k ≡ true → Mem k vs
mem_of_contains [] k h = cc
mem_of_contains (v ∷ vs) k h = elim (Bool-cases (v == k)) [
  | inl e ↦ mem-cons.1 (Or.inl (sym ((eq_iff v k).0 e)))
  | inr e ↦ mem-cons_of_mem v (mem_of_contains vs k (ground arith))
]

contains_of_mem : (vs : List String) (k : String) → Mem k vs → contains vs k ≡ true
contains_of_mem [] k h = absurd (not-mem-nil h)
contains_of_mem (v ∷ vs) k h =
    Or.elim (Bool-set _ _) (mem-cons.0 h) (λ e. ground (arith, eq_iff v k))
      (λ t. ground (arith, contains_of_mem vs k t))

-- The test finds exactly the members.
pub contains_iff : (vs : List String) (k : String) → (contains vs k ≡ true) ↔ Mem k vs
contains_iff vs k = (mem_of_contains vs k, contains_of_mem vs k)
