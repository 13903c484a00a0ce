-- ===== src/Collection/Pool/Laws.antt =====
-- The list of the workers: what a change of one of them does to the rest.
use mathlib.Core.List.{Perm, perm_append_comm}
use mathlib.Core.List.Perm
use dbprobe.Base.{
  ℕ, zero, suc, ◌+◌, ◌≡◌, refl, subst, some, true, false, List, [], ◌∷◌, ◌++◌, arith,
}
use dbprobe.Base.Lists.{length, any, append_assoc}
use dbprobe.Collection.{BatchJob}
use dbprobe.Collection.Pool.{
  Worker, idle, received, collecting, exited, worker_at, set_at, one_steps, worker_steps, is_exited,
}

module _ {ℓ} {A : Type ℓ} where
  pub append-perm_left : (xs ys zs : List A) → Perm (xs ++ (ys ++ zs)) (ys ++ (xs ++ zs))
  append-perm_left xs ys zs =
      subst (λ l. Perm l (ys ++ (xs ++ zs))) (append_assoc xs ys zs)
        (subst (λ l. Perm ((xs ++ ys) ++ zs) l) (append_assoc ys xs zs)
          (Perm.append_right zs (perm_append_comm xs ys)))

module _ {N : Type 0} where
  -- the job that a worker holds
  abbrev pub held : Worker N → List (BatchJob N)
  held idle = []
  held (received job) = job ∷ []
  held (collecting job) = job ∷ []
  held exited = []

  unfoldable pub in_hand : List (Worker N) → List (BatchJob N)
  in_hand [] = []
  in_hand (w ∷ ws) = held w ++ in_hand ws

  pub length-set_at :
      (i : ℕ) (w : Worker N) (ws : List (Worker N)) → length (set_at i w ws) ≡ length ws
  unfolding set_at
  length-set_at i w [] = refl
  length-set_at zero w (v ∷ ws) = refl
  length-set_at (suc i) w (v ∷ ws) = omega (arith, length-set_at i w ws)

  -- A worker that changes from `v` to `w` gives up what `v` holds, and takes what `w` holds.
  pub in_hand-set_at :
      (i : ℕ) (v w : Worker N) (ws : List (Worker N))
      → worker_at i ws ≡ some v
      → Perm (held v ++ in_hand (set_at i w ws)) (held w ++ in_hand ws)
  unfolding set_at worker_at in_hand
  in_hand-set_at i v w [] at = cc
  in_hand-set_at zero v w (u ∷ ws) at =
      let e : u ≡ v = cc in rw e (append-perm_left (held v) (held w) _)
  in_hand-set_at (suc i) v w (u ∷ ws) at = Perm.trans (append-perm_left (held v) (held u) _) (
      Perm.trans (Perm.append_left (held u) (in_hand-set_at i v w ws at))
        (append-perm_left (held u) (held w) _))

  pub worker_steps-set_at :
      (i : ℕ) (v w : Worker N) (ws : List (Worker N))
      → worker_at i ws ≡ some v
      → one_steps v + worker_steps (set_at i w ws) ≡ one_steps w + worker_steps ws
  unfolding set_at worker_at worker_steps
  worker_steps-set_at i v w [] at = cc
  worker_steps-set_at zero v w (u ∷ ws) at = let e : u ≡ v = cc in rw e (omega arith)
  worker_steps-set_at (suc i) v w (u ∷ ws) at = omega (arith, worker_steps-set_at i v w ws at)

  -- A change to a worker that runs makes no other worker return.
  pub any-is_exited-set_at :
      (i : ℕ) (w : Worker N) (ws : List (Worker N))
      → is_exited w ≡ false
      → any is_exited (set_at i w ws) ≡ true
      → any is_exited ws ≡ true
  unfolding set_at
  any-is_exited-set_at i w [] live h = cc
  any-is_exited-set_at zero w (u ∷ ws) live h = ground arith
  any-is_exited-set_at (suc i) w (u ∷ ws) live h = ground (arith, any-is_exited-set_at i w ws live)
