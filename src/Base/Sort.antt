-- ===== src/Base/Sort.antt =====
-- Go's `sort.Slice` and `sort.Strings`, by a `less` that answers in Booleans. This is a stable
-- insertion sort; Go's sort is unstable, so its order of ties is one of several. `sort-eq_of_perm`
-- says when there is only one answer.
use Prim.Native.String.{String}
use Prim.Native.Nat.{suc}
use mathlib.Core.Path.{◌≡◌, ap₂, ap, sym, refl, ◌∙◌}
use mathlib.Core.Bool.{Bool, true, false, Bool-set}
use mathlib.Core.List.{
  List, [], ◌∷◌, Mem, Perm, Pairwise, Pairwise-singleton, mem-cons_self, mem-cons_of_mem,
  forall_mem-cons,
}
use mathlib.Core.List.Pairwise
use mathlib.Core.List.Perm
use mathlib.Core.Logic.{inl, inr}
use native.Mathlib.Omega.{arith}
use text.Mathlib.Text.{◌==◌}
use text.Mathlib.TextEquality.{eq_iff}
use dbprobe.Base.Lists.{All, length}
use dbprobe.Base.Tests.{if◌then◌else◌, Bool-cases}
use dbprobe.Base.Text.{str_lt, str_lt-asym, str_lt-cotrans, str_lt-antisym}

module _ {ℓ} {A : Type ℓ} where
  unfoldable pub sort_insert : (A → A → Bool) → A → List A → List A
  sort_insert less x [] = x ∷ []
  sort_insert less x (y ∷ ys) = if less y x then y ∷ sort_insert less x ys else x ∷ y ∷ ys

  unfoldable pub sort : (A → A → Bool) → List A → List A
  unfolding sort_insert
  sort less [] = []
  sort less (x ∷ xs) = sort_insert less x (sort less xs)

-- A strict weak order, which is what `sort.Slice` asks of its `less`.
pub record IsWeakOrder {ℓ} {A : Type ℓ} (less : A → A → Bool) : Type ℓ where
  pub asym : (a b : A) → less a b ≡ true → less b a ≡ false
  pub cotrans : (a b c : A) → less b a ≡ false → less c b ≡ false → less c a ≡ false

pub str_lt-IsWeakOrder : IsWeakOrder str_lt
str_lt-IsWeakOrder = record { asym = str_lt-asym; cotrans = str_lt-cotrans }

module _ {ℓ} {A : Type ℓ} (less : A → A → Bool) where
  -- No element is before an earlier one.
  abbrev pub IsSorted : List A → Type ℓ
  IsSorted = Pairwise (λ a b. less b a ≡ false)

  pub sort_insert-perm : (x : A) (l : List A) → Perm (sort_insert less x l) (x ∷ l)
  unfolding sort_insert
  sort_insert-perm x [] = Perm.rfl
  sort_insert-perm x (y ∷ ys) = elim (Bool-cases (less y x)) [
    | inl e ↦ rw e (Perm.trans (Perm.cons y (sort_insert-perm x ys)) (Perm.swap x y ys))
    | inr e ↦ rw e Perm.rfl
  ]

  -- Sorting rearranges.
  pub sort-perm : (l : List A) → Perm (sort less l) l
  unfolding sort
  sort-perm [] = Perm.rfl
  sort-perm (x ∷ xs) = Perm.trans (sort_insert-perm x (sort less xs)) (Perm.cons x (sort-perm xs))

  abbrev IsBelow : A → List A → Type ℓ
  IsBelow a l = (x : A) → Mem x l → less x a ≡ false

  IsBelow-cons : {a b : A} (l : List A) → less b a ≡ false → IsBelow a l → IsBelow a (b ∷ l)
  IsBelow-cons {a} l p h = (forall_mem-cons (λ x. Bool-set (less x a) false)).1 (p, h)

  module _ (w : IsWeakOrder less) where
    sort_insert-IsSorted : (x : A) {l : List A} → IsSorted l → IsSorted (sort_insert less x l)
    unfolding sort_insert
    sort_insert-IsSorted x Pairwise.nil = Pairwise-singleton _ x
    sort_insert-IsSorted x (Pairwise.cons {a = y} {l = ys} below s) = elim (Bool-cases (less y x)) [
      | inl e ↦ rw e (
          Pairwise.cons
            (λ z m.
              IsBelow-cons {a = y} {b = x} ys (w.asym y x e) below z
                ((Perm.mem_iff (sort_insert-perm x ys)).0 m))
            (sort_insert-IsSorted x s))
      | inr e ↦ rw e (
          Pairwise.cons (IsBelow-cons {a = x} {b = y} ys e (λ z m. w.cotrans x y z e (below z m)))
            (Pairwise.cons below s))
    ]

    -- Sorting by a strict weak order sorts.
    pub sort-IsSorted : (l : List A) → IsSorted (sort less l)
    unfolding sort
    sort-IsSorted [] = Pairwise.nil
    sort-IsSorted (x ∷ xs) = sort_insert-IsSorted x (sort-IsSorted xs)

  -- Elements that tie are equal.
  abbrev pub NoTies : List A → Type ℓ
  NoTies l = (a b : A) → Mem a l → Mem b l → less a b ≡ false → less b a ≡ false → a ≡ b

  NoTies-tail : {a : A} {l : List A} → NoTies (a ∷ l) → NoTies l
  NoTies-tail {a} n x y mx my = n x y (mem-cons_of_mem a mx) (mem-cons_of_mem a my)

  module _ (w : IsWeakOrder less) where
    irrefl : (a : A) → less a a ≡ false
    irrefl a = elim (Bool-cases (less a a)) [ inl e ↦ w.asym a a e | inr e ↦ e ]

    IsBelow-head : {a : A} {l : List A} → IsSorted (a ∷ l) → IsBelow a (a ∷ l)
    IsBelow-head {a} {l} (Pairwise.cons below _) = IsBelow-cons {a = a} {b = a} l (irrefl a) below

    IsSorted-eq_of_perm : {l r : List A} → NoTies l → IsSorted l → IsSorted r → Perm l r → l ≡ r
    IsSorted-eq_of_perm {l = []} n _ _ p = Perm.nil-eq p
    IsSorted-eq_of_perm {l = a ∷ l} {r = []} n _ _ p = Perm.eq-nil p
    IsSorted-eq_of_perm {l = a ∷ l} {r = b ∷ r} n sl sr p =
        let b_in = (Perm.mem_iff p).1 (mem-cons_self {a = b}) in
        let heads : a ≡ b =
          n a b mem-cons_self b_in (IsBelow-head sr a ((Perm.mem_iff p).0 mem-cons_self))
            (IsBelow-head sl b b_in) in
        let tails = Perm.cons_inv (Perm.trans p (Perm.symm (Perm.cons' heads Perm.rfl))) in
        ap₂ ◌∷◌ heads (
          IsSorted-eq_of_perm {l = l} (NoTies-tail n) (Pairwise.of_cons sl) (Pairwise.of_cons sr)
            tails)

    -- Where ties are equal, the answer depends on nothing but which elements there are: not on the
    -- order of the input, and not on the sorting method.
    pub sort-eq_of_perm : {l r : List A} → NoTies l → Perm l r → sort less l ≡ sort less r
    sort-eq_of_perm {l} {r} n p =
        IsSorted-eq_of_perm
          (λ a b ma mb.
            n a b ((Perm.mem_iff (sort-perm l)).0 ma) ((Perm.mem_iff (sort-perm l)).0 mb))
          (sort-IsSorted w l) (sort-IsSorted w r)
          (Perm.trans (sort-perm l) (Perm.trans p (Perm.symm (sort-perm r))))

    -- A list in order, without ties, is what sorting any rearrangement of it gives.
    pub sort-eq_of_IsSorted : {l r : List A} → NoTies l → IsSorted l → Perm l r → sort less r ≡ l
    sort-eq_of_IsSorted {l} {r} n s p =
        sym (IsSorted-eq_of_perm n s (sort-IsSorted w r) (Perm.trans p (Perm.symm (sort-perm r))))

-- `sort.Strings`
abbrev pub sort_strings : List String → List String
sort_strings = sort str_lt

-- Sorted strings do not depend on the order in which a map handed them out.
pub sort_strings-eq_of_perm : {l r : List String} → Perm l r → sort_strings l ≡ sort_strings r
sort_strings-eq_of_perm p =
    sort-eq_of_perm str_lt str_lt-IsWeakOrder (λ a b _ _ h k. str_lt-antisym a b h k) p

-- `if key(a) != key(b) { return key(a) < key(b) }; return less(a, b)`
abbrev pub less_by {ℓ} : {A : Type ℓ} → (A → String) → (A → A → Bool) → A → A → Bool
less_by key less a b = if key a == key b then less a b else str_lt (key a) (key b)

-- `return key(a) < key(b)`
abbrev pub less_on {ℓ} : {A : Type ℓ} → (A → String) → A → A → Bool
less_on key a b = str_lt (key a) (key b)

pub less_on-IsWeakOrder {ℓ} : {A : Type ℓ} (key : A → String) → IsWeakOrder (less_on key)
less_on-IsWeakOrder key = record {
  asym = λ a b. str_lt-asym (key a) (key b);
  cotrans = λ a b c. str_lt-cotrans (key a) (key b) (key c);
}

less_by-cotrans {ℓ} :
    {A : Type ℓ} (key : A → String) (less : A → A → Bool)
    → IsWeakOrder less
    → (a b c : A) → less_by key less b a ≡ false
    → less_by key less c b ≡ false
    → less_by key less c a ≡ false
less_by-cotrans key less w a b c h k = ground (
  arith,
  eq_iff (key b) (key a),
  eq_iff (key c) (key b),
  eq_iff (key c) (key a),
  w.cotrans a b c,
  str_lt-cotrans (key a) (key b) (key c),
  str_lt-antisym (key a) (key b),
  str_lt-antisym (key b) (key c),
  str_lt-asym (key b) (key a),
  str_lt-asym (key c) (key b),
  str_lt-antisym (key a) (key c),
)

pub less_by-IsWeakOrder {ℓ} :
    {A : Type ℓ} (key : A → String) (less : A → A → Bool)
    → IsWeakOrder less
    → IsWeakOrder (less_by key less)
less_by-IsWeakOrder key less w = record {
  asym = λ a b h. ground (
    arith,
    eq_iff (key a) (key b),
    eq_iff (key b) (key a),
    w.asym a b,
    str_lt-asym (key a) (key b),
  );
  cotrans = less_by-cotrans key less w;
}

module _ {ℓ κ} {A : Type ℓ} (P : A → Type κ) (less : A → A → Bool) where
  All-sort_insert : (x : A) (l : List A) → P x → All P l → All P (sort_insert less x l)
  unfolding sort_insert
  All-sort_insert x [] p h = (p, tt)
  All-sort_insert x (y ∷ ys) p h = elim (Bool-cases (less y x)) [
    | inl e ↦ rw e (h.0, All-sort_insert x ys p h.1)
    | inr e ↦ rw e (p, h)
  ]

  -- What holds of all elements holds of them sorted.
  pub All-sort : (l : List A) → All P l → All P (sort less l)
  unfolding sort
  All-sort [] h = tt
  All-sort (x ∷ xs) h = All-sort_insert x (sort less xs) h.0 (All-sort xs h.1)

module _ {ℓ} {A : Type ℓ} (less : A → A → Bool) where
  length-sort_insert : (x : A) (l : List A) → length (sort_insert less x l) ≡ suc (length l)
  unfolding sort_insert
  length-sort_insert x [] = refl
  length-sort_insert x (y ∷ ys) = ground (arith, length-sort_insert x ys)

  pub length-sort : (l : List A) → length (sort less l) ≡ length l
  unfolding sort
  length-sort [] = refl
  length-sort (x ∷ xs) = length-sort_insert x (sort less xs) ∙ ap suc (length-sort xs)
