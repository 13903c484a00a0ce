-- ===== src/Temporal/Diff/Order.antt =====
-- `Compare` reads each snapshot as a collection: the order of its observations does not matter.
use mathlib.Core.List.{Permᴰ}
use mathlib.Core.List.Perm
use mathlib.Core.List.Permᴰ
use dbprobe.Base.{
  String, suc, Option, List, [], ◌∷◌, ◌≡◌, refl, arith, ◌∙◌, Bool-cases, inl, inr, ap, Bool, true,
  false, sym, if◌then◌else◌,
}
use dbprobe.Base.Lists.{filter, length}
use dbprobe.Base.Outcome.{ok}
use dbprobe.Sdk.Number.{Float64}
use dbprobe.Sdk.Capability.Laws.{sort_strings-add_all_ext}
use dbprobe.Sdk.Signal.{Observation}
use dbprobe.Temporal.Diff.{Change, Diff, observation_identity, compare}
use dbprobe.Temporal.Diff.Expected.{all_identities, difference, gather}
use dbprobe.Temporal.Diff.Laws.{changes-eq-expected}
use dbprobe.Temporal.Snapshot.{Snapshot}

module _ {A : Type 0} where
  length-perm : {l m : List A} → Permᴰ l m → length l ≡ length m
  length-perm Permᴰ.nil = refl
  length-perm (Permᴰ.cons e p) = ap suc (length-perm p)
  length-perm (Permᴰ.swap e g) = refl
  length-perm (Permᴰ.trans p q) = length-perm p ∙ length-perm q

  -- two neighbours of a filtered list, exchanged
  filter-swap :
      (x y x' y' : Bool) {a b a' b' : A}
      → x ≡ y'
      → y ≡ x'
      → a ≡ b'
      → b ≡ a'
      → (r : List A)
      → Permᴰ
          (if x then a ∷ (if y then b ∷ r else r) else (if y then b ∷ r else r))
          (if x' then a' ∷ (if y' then b' ∷ r else r) else (if y' then b' ∷ r else r))
  filter-swap true true true true p q e g r = Permᴰ.swap e g
  filter-swap true false false true p q e g r = Permᴰ.cons e (Permᴰ.refl r)
  filter-swap false true true false p q e g r = Permᴰ.cons g (Permᴰ.refl r)
  filter-swap false false false false p q e g r = Permᴰ.refl r
  filter-swap true true true false p q e g r = cc
  filter-swap true true false y' p q e g r = cc
  filter-swap true false true y' p q e g r = cc
  filter-swap true false false false p q e g r = cc
  filter-swap false true true true p q e g r = cc
  filter-swap false true false y' p q e g r = cc
  filter-swap false false true y' p q e g r = cc
  filter-swap false false false true p q e g r = cc

  filter-perm : (t : A → Bool) {l m : List A} → Permᴰ l m → Permᴰ (filter t l) (filter t m)
  filter-perm t Permᴰ.nil = Permᴰ.nil
  filter-perm t (Permᴰ.cons {a = a} {b = b} e p) = elim (Bool-cases (t a)) [
    | inl h ↦ rw (h, sym (ap t e) ∙ h) (Permᴰ.cons e (filter-perm t p))
    | inr h ↦ rw (h, sym (ap t e) ∙ h) (filter-perm t p)
  ]
  filter-perm t (Permᴰ.swap {a = a} {b = b} {a' = a'} {b' = b'} {l = l} e g) =
      filter-swap (t a) (t b) (t a') (t b') (ap t e) (ap t g) e g (filter t l)
  filter-perm t (Permᴰ.trans p q) = Permᴰ.trans (filter-perm t p) (filter-perm t q)

  singleton-perm : {l m : List A} (x : A) → Permᴰ l m → l ≡ x ∷ [] → m ≡ x ∷ []
  singleton-perm x Permᴰ.nil h = h
  singleton-perm x (Permᴰ.cons {l₁ = []} {l₂ = []} e p) h = ground arith
  singleton-perm x (Permᴰ.cons {l₁ = []} {l₂ = b ∷ m} e p) h = absurd (omega (arith, length-perm p))
  singleton-perm x (Permᴰ.cons {l₁ = a ∷ l} e p) h = ground arith
  singleton-perm x (Permᴰ.swap e g) h = ground arith
  singleton-perm x (Permᴰ.trans p q) h = singleton-perm x q (singleton-perm x p h)

module _ {N : Type 0} ⦃f : Float64 N⦄ where
  difference-many :
      (p p' c c' : List (Observation N))
      → length p ≡ length p'
      → length c ≡ length c'
      → ((o : Observation N) → p ≡ o ∷ [] → p' ≡ o ∷ [])
      → ((o : Observation N) → c ≡ o ∷ [] → c' ≡ o ∷ [])
      → difference p c ≡ difference p' c'
  difference-many [] [] [] [] lp lc sp sc = refl
  difference-many [] [] (a ∷ []) c' lp lc sp sc = rw (sc a refl)
  difference-many (b ∷ []) p' [] [] lp lc sp sc = rw (sp b refl)
  difference-many (b ∷ []) p' (a ∷ []) c' lp lc sp sc = rw (sp b refl, sc a refl)
  difference-many [] [] (a ∷ a' ∷ c) (x ∷ x' ∷ c') lp lc sp sc = refl
  difference-many (b ∷ []) p' (a ∷ a' ∷ c) (x ∷ x' ∷ c') lp lc sp sc = rw (sp b refl)
  difference-many (b ∷ b' ∷ p) (x ∷ x' ∷ p') c c' lp lc sp sc = refl
  difference-many _ _ _ _ lp lc sp sc = absurd (omega arith)

  difference-perm :
      {p p' c c' : List (Observation N)}
      → Permᴰ p p'
      → Permᴰ c c'
      → difference p c ≡ difference p' c'
  difference-perm {p} {p'} {c} {c'} hp hc =
      difference-many p p' c c' (length-perm hp) (length-perm hc) (λ o. singleton-perm o hp)
        (λ o. singleton-perm o hc)

  gather-ext :
      (g h : String → Option (Change N)) (ks : List String)
      → ((k : String) → g k ≡ h k)
      → gather g ks ≡ gather h ks
  gather-ext g h [] e = refl
  gather-ext g h (k ∷ ks) e = ground (arith, e k, gather-ext g h ks e)

  identities-perm :
      {p p' c c' : List (Observation N)}
      → Permᴰ p p'
      → Permᴰ c c'
      → all_identities p c ≡ all_identities p' c'
  unfolding all_identities
  identities-perm hp hc = sort_strings-add_all_ext _ _ (λ k.
      Perm.mem_iff
        (Perm.append ∣ Permᴰ.map observation_identity hp ∣₁ ∣ Permᴰ.map observation_identity hc ∣₁))

  -- Two comparisons whose snapshots hold the same observations, in any order, have the same changes
  -- in the same order.
  pub compare_order :
      (p p' c c' : Snapshot N) {d d' : Diff N}
      → Permᴰ p.observations p'.observations
      → Permᴰ c.observations c'.observations
      → compare p c ≡ ok d
      → compare p' c' ≡ ok d'
      → d.changes ≡ d'.changes
  compare_order p p' c c' hp hc h h' =
      rw (changes-eq-expected p c h, changes-eq-expected p' c' h', identities-perm hp hc)
        (gather-ext _ _ (all_identities p'.observations c'.observations)
          (λ k. difference-perm (filter-perm _ hp) (filter-perm _ hc)))
