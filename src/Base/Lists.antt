-- ===== src/Base/Lists.antt =====
-- Lists measured by native numbers, Boolean searches, and predicates by recursion.
use Prim.Native.Nat.{ℕ, zero, suc, ◌+◌}
use mathlib.Core.Path.{◌≡◌, refl, ap}
use mathlib.Core.Bool.{Bool, true, false, ◌&&◌, ◌||◌}
use mathlib.Core.List.{List, [], ◌∷◌, ◌++◌, map}
use native.Mathlib.Omega.{arith}
use mathlib.Core.Logic.{inl, inr}
use mathlib.Core.Option.{Option, none, some}
use dbprobe.Base.Tests.{if◌then◌else◌, Bool-cases}

module _ {ℓ} {A : Type ℓ} where
  abbrev pub length : List A → ℕ
  length [] = 0
  length (x ∷ xs) = suc (length xs)

  pub length-append : (xs ys : List A) → length (xs ++ ys) ≡ length xs + length ys
  length-append [] ys = omega arith
  length-append (x ∷ xs) ys = omega (arith, length-append xs ys)

  pub append_assoc : (xs ys zs : List A) → ((xs ++ ys) ++ zs) ≡ (xs ++ (ys ++ zs))
  append_assoc [] ys zs = refl
  append_assoc (x ∷ xs) ys zs = ap (◌∷◌ x) (append_assoc xs ys zs)

  pub append-nil : (xs : List A) → (xs ++ []) ≡ xs
  append-nil [] = refl
  append-nil (x ∷ xs) = ap (◌∷◌ x) (append-nil xs)

  abbrev pub take : ℕ → List A → List A
  take zero xs = []
  take (suc n) [] = []
  take (suc n) (x ∷ xs) = x ∷ take n xs

  -- The values that pass a Boolean test, in order: a `continue` at the head of a loop.
  abbrev pub filter : (A → Bool) → List A → List A
  filter p [] = []
  filter p (x ∷ xs) = let rest = filter p xs in if p x then x ∷ rest else rest

  abbrev pub all : (A → Bool) → List A → Bool
  all p [] = true
  all p (x ∷ xs) = p x && all p xs

  abbrev pub any : (A → Bool) → List A → Bool
  any p [] = false
  any p (x ∷ xs) = p x || any p xs

  abbrev pub All {κ} : (A → Type κ) → List A → Type κ
  All P [] = Unit
  All P (x ∷ xs) = P x × All P xs

  pub All-append {κ} : (P : A → Type κ) (xs ys : List A) → All P xs → All P ys → All P (xs ++ ys)
  All-append P [] ys hx hy = hy
  All-append P (x ∷ xs) ys hx hy = (hx.0, All-append P xs ys hx.1 hy)

  pub All-filter : (p : A → Bool) (xs : List A) → All (λ x. p x ≡ true) (filter p xs)
  All-filter p [] = tt
  All-filter p (x ∷ xs) = ground (arith, All-filter p xs)

  pub filter_of_All : (p : A → Bool) (xs : List A) → All (λ x. p x ≡ true) xs → filter p xs ≡ xs
  filter_of_All p [] h = refl
  filter_of_All p (x ∷ xs) h = ground (arith, filter_of_All p xs h.1)

  -- What holds of a list holds of what a test keeps of it.
  pub All-filter_of_All {κ} :
      (P : A → Type κ) (p : A → Bool) (xs : List A) → All P xs → All P (filter p xs)
  All-filter_of_All P p [] h = tt
  All-filter_of_All P p (x ∷ xs) h = elim (Bool-cases (p x)) [
    | inl e ↦ rw e (h.0, All-filter_of_All P p xs h.1)
    | inr e ↦ rw e (All-filter_of_All P p xs h.1)
  ]

  pub All-imp₂ {κ μ ν} :
      {P : A → Type κ} {Q : A → Type μ} (R : A → Type ν)
      → ((x : A) → P x → Q x → R x)
      → (xs : List A) → All P xs
      → All Q xs
      → All R xs
  All-imp₂ R f [] hp hq = tt
  All-imp₂ R f (x ∷ xs) hp hq = (f x hp.0 hq.0, All-imp₂ R f xs hp.1 hq.1)

  -- `continue`, or an append of one value
  abbrev pub prepend : Option A → List A → List A
  prepend none xs = xs
  prepend (some x) xs = x ∷ xs

  pub prepend-append : (o : Option A) (xs : List A) → prepend o xs ≡ prepend o [] ++ xs
  prepend-append none xs = refl
  prepend-append (some x) xs = refl

module _ {ℓ} {A : Type ℓ} where
  pub length-map {κ} : {B : Type κ} (g : A → B) (xs : List A) → length (map g xs) ≡ length xs
  length-map g [] = refl
  length-map g (x ∷ xs) = omega (arith, length-map g xs)

  pub All-map {κ μ} :
      {B : Type κ} (P : B → Type μ) (g : A → B)
      → ((x : A) → P (g x))
      → (xs : List A) → All P (map g xs)
  All-map P g h [] = tt
  All-map P g h (x ∷ xs) = (h x, All-map P g h xs)
