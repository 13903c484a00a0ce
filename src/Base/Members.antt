-- ===== src/Base/Members.antt =====
-- Members of a list, of what a test keeps of it, and of what a function makes of it.
use mathlib.Core.Bool.{Bool, true, false}
use mathlib.Core.List.{
  List, [], ◌∷◌, map, Mem, Mem-prop, mem-cons, mem-cons_self, mem-cons_of_mem, not-mem-nil,
}
use mathlib.Core.Logic.{inl, inr}
use mathlib.Core.Logic.Or
use mathlib.Core.Path.{◌≡◌, sym, subst, ◌∙◌, ap}
use native.Mathlib.Omega.{arith}
use dbprobe.Base.Lists.{All, filter}
use dbprobe.Base.Tests.{Bool-cases}

module _ {ℓ κ} {A : Type ℓ} {P : A → Type κ} (prop : (x : A) → IsProp (P x)) where
  -- What holds of all holds of each.
  pub All-Mem : (xs : List A) → All P xs → (x : A) → Mem x xs → P x
  All-Mem [] h x m = absurd (not-mem-nil m)
  All-Mem (y ∷ ys) h x m =
      Or.elim (prop x) (mem-cons.0 m) (λ e. subst P (sym e) h.0) (λ t. All-Mem ys h.1 x t)

module _ {ℓ κ μ} {A : Type ℓ} {B : Type κ} {P : B → Type μ} (prop : (y : B) → IsProp (P y))
    (g : A → B) where
  -- What holds of each image holds of the members of the images.
  pub Mem-map : (xs : List A) → ((x : A) → Mem x xs → P (g x)) → (y : B) → Mem y (map g xs) → P y
  Mem-map [] h y m = absurd (not-mem-nil m)
  Mem-map (x ∷ xs) h y m =
      Or.elim (prop y) (mem-cons.0 m) (λ e. subst P (sym e) (h x mem-cons_self))
        (λ t. Mem-map xs (λ z k. h z (mem-cons_of_mem x k)) y t)

module _ {ℓ κ} {A : Type ℓ} {B : Type κ} where
  pub mem-map : (g : A → B) (x : A) (xs : List A) → Mem x xs → Mem (g x) (map g xs)
  mem-map g x [] m = absurd (not-mem-nil m)
  mem-map g x (y ∷ ys) m =
      Or.elim Mem-prop (mem-cons.0 m) (λ e. mem-cons.1 (Or.inl (ap g e)))
        (λ t. mem-cons_of_mem (g y) (mem-map g x ys t))

module _ {ℓ} {A : Type ℓ} (p : A → Bool) where
  -- A member that passes the test is kept.
  pub mem-filter : (x : A) (xs : List A) → Mem x xs → p x ≡ true → Mem x (filter p xs)
  mem-filter x [] m h = absurd (not-mem-nil m)
  mem-filter x (y ∷ ys) m h = elim (Bool-cases (p y)) [
    | inl e ↦ rw e (
        Or.elim Mem-prop (mem-cons.0 m) (λ q. mem-cons.1 (Or.inl q))
          (λ t. mem-cons_of_mem y (mem-filter x ys t h)))
    | inr e ↦ rw e (
        Or.elim Mem-prop (mem-cons.0 m)
          (λ q. absurd (let no : p x ≡ false = ap p q ∙ e in ground arith))
          (λ t. mem-filter x ys t h))
  ]

  -- What is kept is a member.
  pub mem_of_mem-filter : (x : A) (xs : List A) → Mem x (filter p xs) → Mem x xs
  mem_of_mem-filter x [] m = m
  mem_of_mem-filter x (y ∷ ys) m = elim (Bool-cases (p y)) [
    | inl e ↦
        Or.elim Mem-prop (mem-cons.0 (rw e at m)) (λ q. mem-cons.1 (Or.inl q))
          (λ t. mem-cons_of_mem y (mem_of_mem-filter x ys t))
    | inr e ↦ mem-cons_of_mem y (mem_of_mem-filter x ys (rw e at m))
  ]
