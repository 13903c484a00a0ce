-- ===== src/Baseline/Memory/Queries.antt =====
-- `Latest`, `Previous` and `List` of the store in memory answer as the specification says.
use mathlib.Core.List.{Mem, Pairwise, mem-cons, mem-cons_self, mem-cons_of_mem, not-mem-nil}
use mathlib.Core.Logic.Or
use mathlib.Core.Bool.{Bool-set}
use dbprobe.Base.{
  String, ℕ, zero, suc, Bool, true, false, List, [], ◌∷◌, if◌then◌else◌, ltb, nat_eq, ◌≡◌, ◌≢◌,
  refl, arith, Bool-cases, inl, inr, ap, subst, sym, ◌||◌, ◌≤◌,
}
use dbprobe.Base.Lists.{take, length, All}
use dbprobe.Base.Outcome.{Outcome, ok, err, ◌>>=◌}
use dbprobe.Base.Sort.{sort, sort-perm, sort-IsSorted, length-sort, All-sort, IsSorted}
use dbprobe.Baseline.Spec.{newest_first, newest_first-IsWeakOrder, Answers, Lists, Answers-perm}
use dbprobe.Baseline.Memory.{
  Memory, held_for, list_sorted, sort_items, clone_snapshot, first_copy, latest, first_before,
  previous, copy_all, list,
}
use dbprobe.Baseline.Memory.Laws.{IsValid, held-clone}
use dbprobe.Sdk.Clock.{Time, before}
use dbprobe.Temporal.Snapshot.{Hash, Snapshot}

module _ {N : Type 0} (hash : Hash) where
  abbrev AreNormal : List (Snapshot N) → Type 0
  AreNormal = All (λ s. clone_snapshot hash s ≡ ok s)

  irrefl : (s : Snapshot N) → newest_first s s ≡ false
  irrefl s = elim (Bool-cases (newest_first s s)) [
    | inl e ↦ newest_first-IsWeakOrder.asym s s e
    | inr e ↦ e
  ]

  -- A value of a Boolean equation about the members of a list, from its head and its tail.
  each :
      {a : Snapshot N} {l : List (Snapshot N)} (test : Snapshot N → Bool) (less : Snapshot N → Bool)
      → (test a ≡ true → less a ≡ false)
      → ((o : Snapshot N) → Mem o l → test o ≡ true → less o ≡ false)
      → (o : Snapshot N) → Mem o (a ∷ l)
      → test o ≡ true
      → less o ≡ false
  each test less ha hl o m t =
      Or.elim (Bool-set (less o) false) (mem-cons.0 m)
        (λ e. subst (λ x. test x ≡ true → less x ≡ false) (sym e) ha t) (λ r. hl o r t)

  first_before-Answers :
      (at : Time) (l : List (Snapshot N))
      → IsSorted newest_first l
      → AreNormal l
      → Answers (λ s. before s.collected_at at) l (first_before hash at l)
  unfolding first_before
  first_before-Answers at [] s n = (refl, λ o m. absurd (not-mem-nil m))
  first_before-Answers at (x ∷ l) (Pairwise.cons above s) n =
      elim (Bool-cases (before x.collected_at at)) [
        | inl e ↦
            rw (e, n.0)
              (record {
                held_one = mem-cons_self;
                passes = e;
                newest =
                    each (λ s. before s.collected_at at) (λ o. newest_first o x) (λ _. irrefl x)
                      (λ o m _. above o m);
              })
        | inr e ↦ rw e (later (first_before hash at l) (first_before-Answers at l s n.1) e)
      ]
    where
      later :
          (r : Outcome (Snapshot N))
          → Answers (λ s. before s.collected_at at) l r
          → before x.collected_at at ≡ false
          → Answers (λ s. before s.collected_at at) (x ∷ l) r
      later (ok s) a e = record {
        held_one = mem-cons_of_mem x a.held_one;
        passes = a.passes;
        newest = each (λ s. before s.collected_at at) (λ o. newest_first o s) (λ t. cc) a.newest;
      }
      later (err m) a e = (
        a.0,
        λ o k.
            Or.elim (Bool-set (before o.collected_at at) false) (mem-cons.0 k) (λ q. rw q e)
              (a.1 o),
      )

  first_copy-Answers :
      (l : List (Snapshot N))
      → l ≢ []
      → IsSorted newest_first l
      → AreNormal l
      → Answers (λ s. true) l (first_copy hash l)
  unfolding first_copy
  first_copy-Answers [] h s n = absurd (h refl)
  first_copy-Answers (x ∷ l) h (Pairwise.cons above s) n = rw n.0 (record {
    held_one = mem-cons_self;
    passes = refl;
    newest = each (λ s. true) (λ o. newest_first o x) (λ _. irrefl x) (λ o m _. above o m);
  })

  sort-ne-nil : (x : Snapshot N) (l : List (Snapshot N)) → sort newest_first (x ∷ l) ≢ []
  sort-ne-nil x l e = absurd (omega (arith, length-sort newest_first (x ∷ l), ap length e))

  module _ (l : List (Snapshot N)) (n : AreNormal l) where
    sorted : IsSorted newest_first (sort newest_first l)
    sorted = sort-IsSorted newest_first newest_first-IsWeakOrder l

    normal : AreNormal (sort newest_first l)
    normal = All-sort (λ s. clone_snapshot hash s ≡ ok s) newest_first l n

  newest_item :
      (l : List (Snapshot N))
      → AreNormal l
      → Answers (λ s. true) l (sort_items l >>= first_copy hash)
  unfolding sort_items
  newest_item [] n = (refl, λ o m. absurd (not-mem-nil m))
  newest_item (x ∷ l) n =
      Answers-perm (λ s. true) _ (sort-perm newest_first (x ∷ l))
        (first_copy-Answers (sort newest_first (x ∷ l)) (sort-ne-nil x l) (sorted (x ∷ l) n)
          (normal (x ∷ l) n))

  previous_item :
      (at : Time) (l : List (Snapshot N))
      → AreNormal l
      → Answers (λ s. before s.collected_at at) l (sort_items l >>= first_before hash at)
  unfolding sort_items
  previous_item at [] n = (refl, λ o m. absurd (not-mem-nil m))
  previous_item at (x ∷ l) n =
      Answers-perm (λ s. before s.collected_at at) _ (sort-perm newest_first (x ∷ l))
        (first_before-Answers at (sort newest_first (x ∷ l)) (sorted (x ∷ l) n) (normal (x ∷ l) n))

  copy_all-normal :
      (n : ℕ) (l : List (Snapshot N)) → AreNormal l → copy_all hash (take n l) ≡ ok (take n l)
  unfolding copy_all
  copy_all-normal zero l h = refl
  copy_all-normal (suc n) [] h = refl
  copy_all-normal (suc n) (x ∷ l) h = rw (h.0, copy_all-normal n l h.1)

  take-length : (l : List (Snapshot N)) (n : ℕ) → length l ≤ n → take n l ≡ l
  take-length [] zero h = refl
  take-length [] (suc n) h = refl
  take-length (x ∷ l) zero h = absurd (omega arith)
  take-length (x ∷ l) (suc n) h = ap (◌∷◌ x) (take-length l n (omega arith))

  clip-ne-nil :
      (limit : ℕ) (l : List (Snapshot N))
      → l ≢ []
      → (if nat_eq limit 0 then l else take limit l) ≢ []
  clip-ne-nil limit [] h = absurd (h refl)
  clip-ne-nil zero (x ∷ l) h = h
  clip-ne-nil (suc n) (x ∷ l) h = λ e. absurd (grind (arith, ap length e))

  -- the limit that `List` uses, against the one that was asked for
  clip : (limit : ℕ) (l : List (Snapshot N)) → List (Snapshot N)
  clip limit l = take (if nat_eq limit 0 || ltb (length l) limit then length l else limit) l

  clip_lem :
      (limit : ℕ) (l : List (Snapshot N))
      → clip limit l ≡ (if nat_eq limit 0 then l else take limit l)
  unfolding clip
  clip_lem limit l = ground (arith, take-length l (length l), take-length l limit)

  listed_items :
      (limit : ℕ) (l : List (Snapshot N))
      → AreNormal l
      → Lists limit l (sort_items l >>= λ items. copy_all hash (clip limit items))
  unfolding sort_items clip
  listed_items limit [] n = (refl, refl)
  listed_items limit (x ∷ l) n =
      let items = sort newest_first (x ∷ l) in
      let ne : clip limit items ≢ [] =
        subst (λ u. u ≢ []) (sym (clip_lem limit items))
          (clip-ne-nil limit items (sort-ne-nil x l)) in
      rw (copy_all-normal _ items (normal (x ∷ l) n))
        (items, sorted (x ∷ l) n, sort-perm newest_first (x ∷ l), clip_lem limit items, ne)

  module _ {m : Memory N} (v : IsValid hash m) (target : String) where
    -- Of a store that satisfies its invariant, `Latest` returns the newest snapshot of the target, or "not found" if there is none.
    pub latest-Answers : Answers (λ s. true) (held_for m target) (latest hash m target)
    unfolding latest list_sorted
    latest-Answers = newest_item (held_for m target) (held-clone hash target v)

    -- Of a store that satisfies its invariant, `Previous` returns the newest snapshot of the target from before the given time, or "not
    -- found" if there is none.
    pub previous-Answers :
        (at : Time)
        → Answers (λ s. before s.collected_at at) (held_for m target) (previous hash m target at)
    unfolding previous list_sorted
    previous-Answers at = previous_item at (held_for m target) (held-clone hash target v)

    -- Of a store that satisfies its invariant, `List` returns the first snapshots of the target,
    -- newest first, as many as the limit says and all of them if it says 0, or "not found" if there
    -- are none.
    pub list-Lists : (limit : ℕ) → Lists limit (held_for m target) (list hash m target limit)
    unfolding list list_sorted
    list-Lists limit =
        unfold clip in listed_items limit (held_for m target) (held-clone hash target v)
