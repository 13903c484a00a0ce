-- ===== src/Baseline/Memory/Laws.antt =====
-- The invariant of the store in memory, and what its methods do.
use mathlib.Core.List.{Nodup, Nodup-nil}
use dbprobe.Base.{
  String, Option, none, some, false, ◌&&◌, ◌||◌, [], ◌∷◌, ◌==◌, if◌then◌else◌, map, ◌≡◌, ◌≢◌, ◌⊎◌,
  true, refl, arith, eq_iff, Bool-cases, Option-cases, inl, inr, subst, sym, ap, ◌∙◌,
}
use dbprobe.Base.GoMap.{
  GoMap, lookup, insert, lookup-insert, keys, keys-insert-Nodup, entries-lookup,
}
use dbprobe.Base.Lists.{All}
use dbprobe.Base.Outcome.{Outcome, ok, err}
use dbprobe.Baseline.Memory.{
  Memory, new_memory, by_id, held_for, clone_snapshot, put_snapshot, save_copy, save,
}
use dbprobe.Sdk.Clock.{is_zero}
use dbprobe.Temporal.Snapshot.{Hash, Snapshot, input_of}
use dbprobe.Temporal.Snapshot.Laws.{new_snapshot_idem, new_snapshot-IsMadeFrom}

module _ {N : Type 0} (hash : Hash) where
  -- Each snapshot is under its own target, in the normal form that `NewSnapshot` gives.
  pub record IsHeld (target : String) (s : Snapshot N) : Type 0 where
    pub own : s.target_fingerprint ≡ target
    pub normal : clone_snapshot hash s ≡ ok s

  pub record IsValid (m : Memory N) : Type 0 where
    pub held : (t k : String) (s : Snapshot N) → lookup (by_id m t) k ≡ some s → IsHeld t s
    pub distinct : (t : String) → Nodup (keys (by_id m t))

  clone-IsHeld :
      (s : Snapshot N) {c : Snapshot N}
      → clone_snapshot hash s ≡ ok c
      → IsHeld s.target_fingerprint c
  unfolding clone_snapshot
  clone-IsHeld s h = record {
    own = (new_snapshot-IsMadeFrom hash (input_of s) h).same_target;
    normal = new_snapshot_idem hash (input_of s) h;
  }

  -- the map of one target after `Save` put a copy
  by_id-put :
      (m : Memory N) (s c : Snapshot N) (t : String)
      → lookup (by_id m s.target_fingerprint) s.id ≡ none
      → by_id (put_snapshot m s c) t ≡ (
          if s.target_fingerprint == t
          then insert s.id c (by_id m s.target_fingerprint)
          else by_id m t)
  unfolding by_id put_snapshot
  by_id-put m s c t h = ground (
    arith,
    lookup-insert s.target_fingerprint t (insert s.id c (by_id m s.target_fingerprint)) m.targets,
  )

  put_old :
      (m : Memory N) (s c : Snapshot N) {o : Snapshot N}
      → lookup (by_id m s.target_fingerprint) s.id ≡ some o
      → put_snapshot m s c ≡ m
  unfolding put_snapshot
  put_old m s c h = ground arith

  -- What a read of an identity gives after a save: what was there stays there.
  abbrev pub keep_or : Option (Snapshot N) → Snapshot N → Option (Snapshot N)
  keep_or none c = some c
  keep_or (some o) c = some o

  lookup-put :
      (m : Memory N) (s c : Snapshot N) (t k : String)
      → lookup (by_id (put_snapshot m s c) t) k ≡ (
          if (s.target_fingerprint == t) && (s.id == k)
          then keep_or (lookup (by_id m t) k) c
          else lookup (by_id m t) k)
  lookup-put m s c t k = elim (Option-cases (lookup (by_id m s.target_fingerprint) s.id)) [
    | inl e ↦ ground (
      arith,
      e,
      by_id-put m s c t e,
      lookup-insert s.id k c (by_id m s.target_fingerprint),
      eq_iff s.target_fingerprint t,
      eq_iff s.id k,
    )
    | inr (o, e) ↦ ground (arith, e, put_old m s c e, eq_iff s.target_fingerprint t, eq_iff s.id k)
  ]

  put-distinct :
      (m : Memory N) (s c : Snapshot N) (t : String)
      → ((u : String) → Nodup (keys (by_id m u)))
      → Nodup (keys (by_id (put_snapshot m s c) t))
  put-distinct m s c t n = elim (Option-cases (lookup (by_id m s.target_fingerprint) s.id)) [
    | inl e ↦ rw (by_id-put m s c t e) (elim (Bool-cases (s.target_fingerprint == t)) [
      | inl h ↦
          rw h (keys-insert-Nodup s.id c (by_id m s.target_fingerprint) (n s.target_fingerprint))
      | inr h ↦ rw h (n t)
    ])
    | inr (o, e) ↦ rw (put_old m s c e) (n t)
  ]

  put-IsValid :
      {m : Memory N} (s c : Snapshot N)
      → IsValid m
      → IsHeld s.target_fingerprint c
      → IsValid (put_snapshot m s c)
  put-IsValid {m} s c v h = record {
    held = λ t k o e. elim (Bool-cases ((s.target_fingerprint == t) && (s.id == k))) [
      | inl same ↦ elim (Option-cases (lookup (by_id m t) k)) [
        | inl new ↦
            subst (λ u. IsHeld u o) ((eq_iff s.target_fingerprint t).0 (ground arith))
              (subst (IsHeld s.target_fingerprint) (ground (arith, lookup-put m s c t k)) h)
        | inr (old, at) ↦ v.held t k o (ground (arith, lookup-put m s c t k))
      ]
      | inr other ↦ v.held t k o (ground (arith, lookup-put m s c t k))
    ];
    distinct = λ t. put-distinct m s c t v.distinct;
  }

  save_copy-IsValid :
      {m : Memory N} (s : Snapshot N) (r : Outcome (Snapshot N))
      → IsValid m
      → ((c : Snapshot N) → r ≡ ok c → IsHeld s.target_fingerprint c)
      → IsValid (save_copy m s r).0
  unfolding save_copy
  save_copy-IsValid s (err e) v h = v
  save_copy-IsValid s (ok c) v h = put-IsValid s c v (h c refl)

  -- A snapshot that `Save` does not refuse.
  abbrev pub IsNamed : Snapshot N → Type 0
  IsNamed s = (s.id ≢ "") × (s.target_fingerprint ≢ "") × (is_zero s.collected_at ≡ false)

  save-cases :
      (m : Memory N) (s : Snapshot N)
      → (save hash m s ≡ (m, err "invalid snapshot"))
        ⊎ (save hash m s ≡ save_copy m s (clone_snapshot hash s))
  unfolding save
  save-cases m s =
      elim (Bool-cases ((s.id == "") || (s.target_fingerprint == "") || is_zero s.collected_at)) [
        | inl e ↦ inl (rw e)
        | inr e ↦ inr (rw e)
      ]

  -- If each snapshot of a store stands under its own target, is equal to its copy, and is there once,
  -- then this is so after `Save`, whether it fails or not.
  pub save-IsValid : {m : Memory N} (s : Snapshot N) → IsValid m → IsValid (save hash m s).0
  save-IsValid {m} s v = elim (save-cases m s) [
    | inl e ↦ rw e v
    | inr e ↦ rw e (save_copy-IsValid s (clone_snapshot hash s) v (λ c h. clone-IsHeld s h))
  ]

  save-open :
      (m : Memory N) (s : Snapshot N)
      → IsNamed s
      → save hash m s ≡ save_copy m s (clone_snapshot hash s)
  unfolding save
  save-open m s (i, t, d) = ground (arith, eq_iff s.id "", eq_iff s.target_fingerprint "")

  -- A `Save` of a snapshot that has an identity, a target and a time, and that can be copied,
  -- succeeds. Afterwards the copy is under the snapshot's target and identity, unless a snapshot was
  -- there before, which stays; nothing else changes.
  pub lookup-save :
      (m : Memory N) (s : Snapshot N) {c : Snapshot N}
      → IsNamed s
      → clone_snapshot hash s ≡ ok c
      → ((save hash m s).1 ≡ ok tt)
        × ((t k : String)
            → lookup (by_id (save hash m s).0 t) k ≡ (
                if (s.target_fingerprint == t) && (s.id == k)
                then keep_or (lookup (by_id m t) k) c
                else lookup (by_id m t) k))
  unfolding save_copy
  lookup-save m s {c} n h = rw (save-open m s n, h) (refl, λ t k. lookup-put m s c t k)

  save_copy-put_old :
      (m : Memory N) (s : Snapshot N) {o : Snapshot N} (r : Outcome (Snapshot N))
      → lookup (by_id m s.target_fingerprint) s.id ≡ some o
      → (save_copy m s r).0 ≡ m
  unfolding save_copy
  save_copy-put_old m s (err e) h = refl
  save_copy-put_old m s (ok c) h = put_old m s c h

  save_copy-err :
      (m : Memory N) (s : Snapshot N) {e : String} (r : Outcome (Snapshot N))
      → (save_copy m s r).1 ≡ err e
      → (save_copy m s r).0 ≡ m
  unfolding save_copy
  save_copy-err m s (err e) h = refl
  save_copy-err m s (ok c) h = cc

  -- A `Save` that fails leaves the store as it is.
  pub save-err :
      (m : Memory N) (s : Snapshot N) {e : String}
      → (save hash m s).1 ≡ err e
      → (save hash m s).0 ≡ m
  save-err m s h = elim (save-cases m s) [
    | inl e ↦ ap (λ r. r.0) e
    | inr e ↦
        ap (λ r. r.0) e ∙ save_copy-err m s (clone_snapshot hash s) (ap (λ r. r.1) (sym e) ∙ h)
  ]

  -- A snapshot whose identity the store holds for its target is not overwritten.
  pub save_known :
      (m : Memory N) (s : Snapshot N) {o : Snapshot N}
      → lookup (by_id m s.target_fingerprint) s.id ≡ some o
      → (save hash m s).0 ≡ m
  save_known m s h = elim (save-cases m s) [
    | inl e ↦ ap (λ r. r.0) e
    | inr e ↦ ap (λ r. r.0) e ∙ save_copy-put_old m s (clone_snapshot hash s) h
  ]

  pub new_memory-IsValid : IsValid new_memory
  unfolding by_id lookup
  new_memory-IsValid = record { held = λ t k s h. cc; distinct = λ t. Nodup-nil }

  -- a store's snapshots are equal to their copies
  pub held-clone :
      {m : Memory N} (t : String)
      → IsValid m
      → All (λ s. clone_snapshot hash s ≡ ok s) (held_for m t)
  unfolding held_for
  held-clone {m} t v = All-entries (by_id m t) (entries-lookup (by_id m t) (v.distinct t))
    where
      All-entries :
          (l : GoMap (Snapshot N))
          → All (λ e. lookup (by_id m t) e.0 ≡ some e.1) l
          → All (λ s. clone_snapshot hash s ≡ ok s) (map (λ e. e.1) l)
      All-entries [] h = tt
      All-entries ((k, s) ∷ l) h = ((v.held t k s h.0).normal, All-entries l h.1)

  -- a store's snapshots stand under their own target
  pub held-own :
      {m : Memory N} (t : String)
      → IsValid m
      → All (λ s. (s.target_fingerprint == t) ≡ true) (held_for m t)
  unfolding held_for
  held-own {m} t v = All-entries (by_id m t) (entries-lookup (by_id m t) (v.distinct t))
    where
      All-entries :
          (l : GoMap (Snapshot N))
          → All (λ e. lookup (by_id m t) e.0 ≡ some e.1) l
          → All (λ s. (s.target_fingerprint == t) ≡ true) (map (λ e. e.1) l)
      All-entries [] h = tt
      All-entries ((k, s) ∷ l) h =
          ((eq_iff s.target_fingerprint t).1 (v.held t k s h.0).own, All-entries l h.1)
