-- ===== src/Temporal/Diff/Laws.antt =====
-- What `Compare` promises: when it answers, and what its changes are.
use mathlib.Core.Option
use dbprobe.Base.{
  String, Option, none, some, Bool, true, List, [], ◌∷◌, ◌==◌, ◌≡◌, ◌↔◌, refl, arith, eq_iff,
  eq_refl, ◌∙◌, map,
}
use dbprobe.Base.Lists.{All, All-filter_of_All}
use dbprobe.Base.Text.{str_eq_comm}
use dbprobe.Base.Outcome.{ok}
use dbprobe.Sdk.Number.{Float64}
use dbprobe.Sdk.Signal.{Observation, ref_eq}
use dbprobe.Temporal.Diff.{
  Change, Diff, observation_equivalent, equal_ptr, bool_eq, with_numbers, change_of, compare,
}
use dbprobe.Temporal.Diff.Identity.{sharing}
use dbprobe.Temporal.Diff.Expected.{
  all_identities, all_identities_comm, difference, gather, expected_changes, SameTarget,
  compare-eq-expected,
}
use dbprobe.Temporal.Snapshot.{Snapshot}

equal_ptr_text_self : (o : Option String) → equal_ptr ◌==◌ o o ≡ true
unfolding equal_ptr
equal_ptr_text_self none = refl
equal_ptr_text_self (some s) = eq_refl s

equal_ptr_bool_self : (o : Option Bool) → equal_ptr bool_eq o o ≡ true
unfolding equal_ptr
equal_ptr_bool_self o = ground arith

bool_eq_comm : (a b : Bool) → bool_eq a b ≡ bool_eq b a
bool_eq_comm a b = ground arith

equal_ptr_comm :
    {A : Type 0} (same : A → A → Bool)
    → ((a b : A) → same a b ≡ same b a)
    → (a b : Option A) → equal_ptr same a b ≡ equal_ptr same b a
unfolding equal_ptr
equal_ptr_comm same h none none = refl
equal_ptr_comm same h none (some b) = refl
equal_ptr_comm same h (some a) none = refl
equal_ptr_comm same h (some a) (some b) = h a b

module _ {N : Type 0} ⦃f : Float64 N⦄ where
  SameTarget-of_ok : (p c : Snapshot N) {d : Diff N} → compare p c ≡ ok d → SameTarget p c
  unfolding compare
  SameTarget-of_ok p c h = record {
    named = ground (arith, eq_iff p.target_fingerprint "");
    shared = ground (arith, eq_iff p.target_fingerprint c.target_fingerprint);
  }

  -- `Compare` answers exactly for two snapshots of one named target.
  pub compare-ok_iff : (p c : Snapshot N) → ((d : Diff N) × (compare p c ≡ ok d)) ↔ SameTarget p c
  compare-ok_iff p c = (λ (d, h). SameTarget-of_ok p c h, λ t. (_, compare-eq-expected p c t))

  pub changes-eq-expected :
      (p c : Snapshot N) {d : Diff N}
      → compare p c ≡ ok d
      → d.changes ≡ expected_changes p.observations c.observations
  changes-eq-expected p c h = ground (arith, compare-eq-expected p c (SameTarget-of_ok p c h))

  -- Every number of an observation equals itself: it is no NaN.
  abbrev pub HasNoNaN : List (Observation N) → Type 0
  HasNoNaN = All (λ o. equal_ptr f.eq o.number o.number ≡ true)

  equivalent_self :
      (o : Observation N)
      → equal_ptr f.eq o.number o.number ≡ true
      → observation_equivalent o o ≡ true
  unfolding observation_equivalent ref_eq
  equivalent_self o h = ground (
    arith,
    h,
    eq_refl o.key,
    eq_refl o.object.kind,
    eq_refl o.object.id,
    eq_refl o.unit,
    eq_refl o.exactness,
    eq_refl o.sensitivity,
    eq_refl o.source,
    eq_refl o.reason,
    equal_ptr_text_self o.text,
    equal_ptr_bool_self o.boolean,
  )

  gather-nil :
      (g : String → Option (Change N)) (ks : List String)
      → ((k : String) → g k ≡ none)
      → gather g ks ≡ []
  gather-nil g [] h = refl
  gather-nil g (k ∷ ks) h = ground (arith, h k, gather-nil g ks h)

  difference_self : (l : List (Observation N)) → HasNoNaN l → difference l l ≡ none
  unfolding change_of
  difference_self [] h = refl
  difference_self (o ∷ []) h = ground (arith, equivalent_self o h.0)
  difference_self (o ∷ o' ∷ l) h = refl

  -- A snapshot with no NaN, compared with itself, gives no changes.
  pub compare_self :
      (s : Snapshot N) {d : Diff N} → HasNoNaN s.observations → compare s s ≡ ok d → d.changes ≡ []
  compare_self s n h =
      changes-eq-expected s s h
      ∙ gather-nil (λ k. difference (sharing k s.observations) (sharing k s.observations))
          (all_identities s.observations s.observations)
          (λ k. difference_self (sharing k s.observations) (All-filter_of_All _ _ s.observations n))

  -- What a change says of before and after, and the same read backwards.
  abbrev pub sides : Change N → Option (Observation N) × Option (Observation N)
  sides change = (change.before, change.after)

  abbrev pub sides_back : Change N → Option (Observation N) × Option (Observation N)
  sides_back change = (change.after, change.before)

  module _ (symmetric : (a b : N) → f.eq a b ≡ f.eq b a) where
    equivalent_comm :
        (a b : Observation N) → observation_equivalent a b ≡ observation_equivalent b a
    unfolding observation_equivalent ref_eq
    equivalent_comm a b = rw (
      str_eq_comm a.key b.key,
      str_eq_comm a.object.kind b.object.kind,
      str_eq_comm a.object.id b.object.id,
      str_eq_comm a.unit b.unit,
      str_eq_comm a.exactness b.exactness,
      str_eq_comm a.sensitivity b.sensitivity,
      str_eq_comm a.source b.source,
      str_eq_comm a.reason b.reason,
      equal_ptr_comm f.eq symmetric a.number b.number,
      equal_ptr_comm ◌==◌ str_eq_comm a.text b.text,
      equal_ptr_comm bool_eq bool_eq_comm a.boolean b.boolean,
    )

    difference-swap :
        (p c : List (Observation N))
        → Option.map sides (difference p c) ≡ Option.map sides_back (difference c p)
    unfolding change_of with_numbers
    difference-swap [] [] = refl
    difference-swap [] (a ∷ []) = refl
    difference-swap [] (a ∷ a' ∷ c) = refl
    difference-swap (b ∷ []) [] = refl
    difference-swap (b ∷ []) (a ∷ []) = ground (arith, equivalent_comm a b)
    difference-swap (b ∷ []) (a ∷ a' ∷ c) = refl
    difference-swap (b ∷ b' ∷ p) [] = refl
    difference-swap (b ∷ b' ∷ p) (a ∷ []) = refl
    difference-swap (b ∷ b' ∷ p) (a ∷ a' ∷ c) = refl

    gather-swap :
        (g h : String → Option (Change N)) (ks : List String)
        → ((k : String) → Option.map sides (g k) ≡ Option.map sides_back (h k))
        → map sides (gather g ks) ≡ map sides_back (gather h ks)
    gather-swap g h [] e = refl
    gather-swap g h (k ∷ ks) e = ground (arith, e k, gather-swap g h ks e)

    -- If the equality of numbers is symmetric, then to compare in the other direction, where both
    -- directions answer, gives the same changes in the same order, with before and after exchanged.
    pub compare_swap :
        (p c : Snapshot N) {d e : Diff N}
        → compare p c ≡ ok d
        → compare c p ≡ ok e
        → map sides d.changes ≡ map sides_back e.changes
    compare_swap p c h k =
        rw
          (
            changes-eq-expected p c h,
            changes-eq-expected c p k,
            all_identities_comm p.observations c.observations,
          )
          (gather-swap (λ k. difference (sharing k p.observations) (sharing k c.observations))
            (λ k. difference (sharing k c.observations) (sharing k p.observations))
            (all_identities c.observations p.observations) (λ k. difference-swap _ _))
