-- ===== src/Sdk/Number.antt =====
-- Go's `float64`, which the language gives and no file of the repository defines: a type with the
-- operations that the program uses. A rule's theorem holds for every such type, so it assumes
-- nothing about rounding; what a theorem needs of the arithmetic is among its hypotheses.
use dbprobe.Base.{ℕ, ◌+◌, ◌-◌, ◌*◌, ◌/◌, ◌^◌, String, Bool, ltb, leb, nat_eq}

pub record Float64 (N : Type 0) : Type 0 where
  pub lt : N → N → Bool
  pub le : N → N → Bool
  pub eq : N → N → Bool
  pub add : N → N → N
  pub sub : N → N → N
  pub mul : N → N → N
  pub div : N → N → N
  -- the literal `m / 10 ^ e`
  pub lit : ℕ → ℕ → N
  -- `%.nf`
  pub fixed : ℕ → N → String

module _ {N : Type 0} ⦃f : Float64 N⦄ where
  -- `a >= b`
  abbrev pub ge : N → N → Bool
  ge a b = f.le b a

  abbrev pub whole : ℕ → N
  whole n = f.lit n 0

-- Thousandths, for runs on concrete values.
instance abbrev pub milli : Float64 ℕ
milli = record {
  lt = ltb;
  le = leb;
  eq = nat_eq;
  add = λ a b. a + b;
  sub = λ a b. a - b;
  mul = λ a b. a * b / 1000;
  div = λ a b. a * 1000 / b;
  lit = λ m e. m * 1000 / 10 ^ e;
  fixed = λ digits a. "#";
}
