-- ===== src/Inspect/Rules/Laws.antt =====
-- What `composeRules` composes, and which findings an inspection reports.
use dbprobe.Base.{
  Option, none, some, Bool, true, false, not, ◌&&◌, List, [], ◌∷◌, ◌++◌, ◌==◌, ◌≡◌, ◌∙◌, ap, refl,
  sym, arith, Option-cases, Bool-cases, inl, inr, eq_iff,
}
use dbprobe.Base.GoMap.{GoMap, lookup, insert, lookup-insert}
use dbprobe.Base.Lists.{filter, append_assoc, append-nil}
use dbprobe.Base.Optional.{collect}
use dbprobe.Inspect.Rules.{add_rule, add_rules, compose_rules}
use dbprobe.Sdk.Finding.{Rule}

module _ {A : Type 0} where
  filter-ext : (p q : A → Bool) (l : List A) → ((x : A) → p x ≡ q x) → filter p l ≡ filter q l
  filter-ext p q [] h = refl
  filter-ext p q (x ∷ l) h = let tail = filter-ext p q l h in ground (arith, tail, h x)

  filter-filter : (p q : A → Bool) (l : List A) → filter p (filter q l) ≡ filter (λ x. p x && q x) l
  filter-filter p q [] = refl
  filter-filter p q (x ∷ l) = let tail = filter-filter p q l in ground (arith, tail)

-- whether an identity with this entry is new
abbrev is_new_of : Option (Unit {0}) → Bool
is_new_of none = true
is_new_of (some u) = false

module _ {N : Type 0} where
  abbrev pub present : List (Option (Rule N)) → List (Rule N)
  present = collect (λ rule. rule)

  -- The first rule of each identity, in order.
  abbrev pub first_of_each : List (Rule N) → List (Rule N)
  first_of_each [] = []
  first_of_each (rule ∷ rules) = rule ∷ filter (λ r. not (r.id == rule.id)) (first_of_each rules)

  is_new : GoMap (Unit {0}) → Rule N → Bool
  is_new seen rule = is_new_of (lookup seen rule.id)

  is_new_eq :
      (seen : GoMap (Unit {0})) (r : Rule N) {o : Option (Unit {0})}
      → lookup seen r.id ≡ o
      → is_new seen r ≡ is_new_of o
  unfolding is_new
  is_new_eq seen r e = ap is_new_of e

  is_new_known :
      (seen : GoMap (Unit {0})) (r x : Rule N)
      → is_new seen r ≡ false
      → (is_new seen x && not (x.id == r.id)) ≡ is_new seen x
  unfolding is_new
  is_new_known seen r x h = elim (Bool-cases (x.id == r.id)) [
    | inl e ↦
        let same : is_new seen x ≡ false =
          ap (λ k. is_new_of (lookup seen k)) ((eq_iff x.id r.id).0 e) ∙ h in
        rw (e, same) refl
    | inr e ↦ rw e (and_true (is_new seen x))
  ]
    where
      and_true : (b : Bool) → (b && true) ≡ b
      and_true true = refl
      and_true false = refl

  is_new-insert :
      (seen : GoMap (Unit {0})) (r x : Rule N)
      → (is_new seen x && not (x.id == r.id)) ≡ is_new (insert r.id tt seen) x
  unfolding is_new
  is_new-insert seen r x =
      ground (arith, lookup-insert r.id x.id tt seen, eq_iff x.id r.id, eq_iff r.id x.id)

  add_rules-eq :
      (l : List (Option (Rule N))) (combined : List (Rule N)) (seen : GoMap (Unit {0}))
      → (add_rules l (combined, seen)).0
        ≡ combined ++ filter (is_new seen) (first_of_each (present l))
  unfolding add_rules add_rule
  add_rules-eq [] combined seen = sym (append-nil combined)
  add_rules-eq (none ∷ l) combined seen = add_rules-eq l combined seen
  add_rules-eq (some r ∷ l) combined seen = elim (Option-cases (lookup seen r.id)) [
    | inr (u, e) ↦
        let old = is_new_eq seen r e in
        ap (λ o. (add_rules l (add_rule r o (combined, seen))).0) e
        ∙ add_rules-eq l combined seen
        ∙ ap (λ t. combined ++ t) (sym (known old) ∙ sym (kept old))
    | inl e ↦
        let new = is_new_eq seen r e in
        ap (λ o. (add_rules l (add_rule r o (combined, seen))).0) e
        ∙ add_rules-eq l (combined ++ (r ∷ [])) (insert r.id tt seen)
        ∙ append_assoc combined (r ∷ []) _
        ∙ ap (λ t. combined ++ t) (ap (◌∷◌ r) (sym fresh) ∙ sym (taken new))
  ]
    where
      rest : List (Rule N)
      rest = first_of_each (present l)

      kept :
          is_new seen r ≡ false
          → filter (is_new seen) (first_of_each (r ∷ present l))
            ≡ filter (is_new seen) (filter (λ x. not (x.id == r.id)) rest)
      kept old = rw old refl

      taken :
          is_new seen r ≡ true
          → filter (is_new seen) (first_of_each (r ∷ present l))
            ≡ r ∷ filter (is_new seen) (filter (λ x. not (x.id == r.id)) rest)
      taken new = rw new refl

      known :
          is_new seen r ≡ false
          → filter (is_new seen) (filter (λ x. not (x.id == r.id)) rest) ≡ filter (is_new seen) rest
      known old =
          filter-filter (is_new seen) _ rest ∙ filter-ext _ _ rest (λ x. is_new_known seen r x old)

      fresh :
          filter (is_new seen) (filter (λ x. not (x.id == r.id)) rest)
          ≡ filter (is_new (insert r.id tt seen)) rest
      fresh = filter-filter (is_new seen) _ rest ∙ filter-ext _ _ rest (λ x. is_new-insert seen r x)

  add_rules-append :
      (l m : List (Option (Rule N))) (state : List (Rule N) × GoMap (Unit {0}))
      → add_rules m (add_rules l state) ≡ add_rules (l ++ m) state
  unfolding add_rules
  add_rules-append [] m state = refl
  add_rules-append (none ∷ l) m state = add_rules-append l m state
  add_rules-append (some r ∷ l) m state = add_rules-append l m _

  filter_new : (l : List (Rule N)) → filter (is_new []) l ≡ l
  unfolding is_new lookup
  filter_new [] = refl
  filter_new (r ∷ l) = ap (◌∷◌ r) (filter_new l)

  -- An inspection runs the rules of the core and then those of the adapter, and of the rules with one
  -- identity only the first: what `composeRules` composes is that list, in that order.
  pub compose_rules-eq :
      (core adapter : List (Option (Rule N)))
      → compose_rules core adapter ≡ first_of_each (present (core ++ adapter))
  unfolding compose_rules
  compose_rules-eq core adapter =
      ap (λ s. s.0) (add_rules-append core adapter ([], []))
      ∙ add_rules-eq (core ++ adapter) [] []
      ∙ filter_new (first_of_each (present (core ++ adapter)))
