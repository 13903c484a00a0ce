-- ===== src/Base/Optional.antt =====
-- A loop body that may `continue`: `none` when it does, `some` of what it appends otherwise.
use mathlib.Core.Bool.{Bool, true, false}
use mathlib.Core.List.{List, [], ◌∷◌, Mem, mem-cons_self, mem-cons_of_mem}
use mathlib.Core.Option.{Option, none, some}
use mathlib.Core.Path.{◌≡◌, refl}
use dbprobe.Base.Lists.{All, prepend}

infixl 5 ◌>>=◌ ◌>>◌
abbrev pub ◌>>=◌ {ℓ κ} : {A : Type ℓ} {B : Type κ} → Option A → (A → Option B) → Option B
none >>= rest = none
some value >>= rest = rest value

abbrev pub ◌>>◌ {ℓ} : {B : Type ℓ} → Option (Unit {0}) → Option B → Option B
test >> rest = test >>= λ done. rest

-- `if test { continue }`
abbrev pub skip_if : Bool → Option (Unit {0})
skip_if true = none
skip_if false = some tt

All-prepend {ℓ μ} :
    {B : Type ℓ} (P : B → Type μ) (o : Option B) (ys : List B)
    → ((y : B) → o ≡ some y → P y)
    → All P ys
    → All P (prepend o ys)
All-prepend P none ys h t = t
All-prepend P (some y) ys h t = (h y refl, t)

module _ {ℓ κ} {A : Type ℓ} {B : Type κ} where
  -- the loop
  abbrev pub collect : (A → Option B) → List A → List B
  collect body [] = []
  collect body (x ∷ xs) = prepend (body x) (collect body xs)

  -- What holds of everything that the body appends holds of the result.
  pub All-collect {μ} :
      (P : B → Type μ) (body : A → Option B) (xs : List A)
      → ((x : A) → Mem x xs → (y : B) → body x ≡ some y → P y)
      → All P (collect body xs)
  All-collect P body [] h = tt
  All-collect P body (x ∷ xs) h =
      All-prepend P (body x) _ (h x mem-cons_self)
        (All-collect P body xs (λ z m. h z (mem-cons_of_mem x m)))

-- The elements of a list are members of it.
pub All-mem {ℓ} : {A : Type ℓ} (xs : List A) → All (λ x. Mem x xs) xs
All-mem xs = from xs (λ x m. m)
  where
    from :
        {A : Type ℓ} {whole : List A} (xs : List A)
        → ((x : A) → Mem x xs → Mem x whole)
        → All (λ x. Mem x whole) xs
    from [] h = tt
    from (x ∷ xs) h = (h x mem-cons_self, from xs (λ z m. h z (mem-cons_of_mem x m)))
