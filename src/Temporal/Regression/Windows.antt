-- ===== src/Temporal/Regression/Windows.antt =====
-- The sampled window of an object, described by the deltas that are about it.
use dbprobe.Base.{
  String, Option, none, some, not, ◌&&◌, ◌||◌, List, [], ◌∷◌, ◌==◌, if◌then◌else◌, ◌≡◌, refl, arith,
  eq_iff, Bool-cases, inl, inr, ◌∙◌, ap, subst, Option-cases,
}
use dbprobe.Base.GoMap.{GoMap, lookup, lookup-insert, keys, keys-insert-Nodup, mem-keys_iff}
use dbprobe.Base.Lists.{filter}
use dbprobe.Sdk.Number.{Float64}
use dbprobe.Sdk.Signal.{Delta}
use mathlib.Core.Logic.Or
use mathlib.Core.List.{Mem, Mem-prop, mem-cons, mem-cons_of_mem, Nodup, Nodup-nil, Nodup-cons}
use dbprobe.Temporal.Regression.{
  MetricPair, MetricWindow, object_identity, is_skipped, absorb, collect_windows, keep_complete,
  sampled_metrics,
}

module _ {N : Type 0} ⦃f : Float64 N⦄ (pair : MetricPair) where
  -- The sampled, non-negative deltas of either metric that are about the object `id`.
  abbrev pub samples_of : String → List (Delta N) → List (Delta N)
  samples_of id = filter (λ d. not (is_skipped pair d) && (object_identity d.object == id))

  abbrev pub window_of : Option (MetricWindow N) → List (Delta N) → Option (MetricWindow N)
  window_of old [] = old
  window_of old (d ∷ ds) = window_of (some (absorb pair old d)) ds

  -- A window with both metrics.
  abbrev pub complete : Option (MetricWindow N) → Option (MetricWindow N)
  complete none = none
  complete (some w) = if w.has_calls && w.has_latency then some w else none

  collect-window :
      (ds : List (Delta N)) (out : GoMap (MetricWindow N)) (id : String)
      → lookup (collect_windows pair ds out) id ≡ window_of (lookup out id) (samples_of id ds)
  unfolding collect_windows
  collect-window [] out id = refl
  collect-window (d ∷ ds) out id = elim (Bool-cases (is_skipped pair d)) [
    | inl e ↦ rw (e, collect_windows) (collect-window ds out id)
    | inr e ↦
        rw (e, collect_windows)
          (collect-window ds _ id
            ∙ rw lookup-insert (elim (Bool-cases (object_identity d.object == id)) [
              | inl h ↦ rw h (rw ((eq_iff (object_identity d.object) id).0 h) refl)
              | inr h ↦ rw h refl
            ]))
  ]

  collect-Nodup :
      (ds : List (Delta N)) (out : GoMap (MetricWindow N))
      → Nodup (keys out)
      → Nodup (keys (collect_windows pair ds out))
  unfolding collect_windows
  collect-Nodup [] out n = n
  collect-Nodup (d ∷ ds) out n = elim (Bool-cases (is_skipped pair d)) [
    | inl e ↦ rw (e, collect_windows) (collect-Nodup ds out n)
    | inr e ↦
        rw (e, collect_windows)
          (collect-Nodup ds _ (keys-insert-Nodup (object_identity d.object) _ out n))
  ]

  lookup-fresh : (id : String) (m : GoMap (MetricWindow N)) → ¬ Mem id (keys m) → lookup m id ≡ none
  lookup-fresh id m h = elim (Option-cases (lookup m id)) [
    | inl e ↦ e
    | inr (w, e) ↦ absurd (h ((mem-keys_iff id m).1 (λ z. cc)))
  ]

  lookup-keep_complete :
      (m : GoMap (MetricWindow N)) (id : String)
      → Nodup (keys m)
      → lookup (keep_complete m) id ≡ complete (lookup m id)
  unfolding lookup keep_complete
  lookup-keep_complete [] id n = refl
  lookup-keep_complete ((j, w) ∷ m) id n =
      let tail = Nodup-cons.0 n in
      elim (Bool-cases (j == id)) [
        | inl e ↦ ground (
          arith,
          lookup-keep_complete m id tail.1,
          lookup-fresh id m (subst (λ x. ¬ Mem x (keys m)) ((eq_iff j id).0 e) tail.0),
        )
        | inr e ↦ ground (arith, lookup-keep_complete m id tail.1)
      ]

  keep_complete-subset :
      (m : GoMap (MetricWindow N)) (k : String) → Mem k (keys (keep_complete m)) → Mem k (keys m)
  unfolding keep_complete
  keep_complete-subset [] k h = h
  keep_complete-subset ((j, w) ∷ m) k h = elim (Bool-cases (not w.has_calls || not w.has_latency)) [
    | inl e ↦ mem-cons_of_mem j (keep_complete-subset m k (rw (e, keep_complete) at h))
    | inr e ↦
        Or.elim Mem-prop (mem-cons.0 (rw (e, keep_complete) at h)) (λ q. mem-cons.1 (Or.inl q))
          (λ t. mem-cons_of_mem j (keep_complete-subset m k t))
  ]

  keep_complete-Nodup :
      (m : GoMap (MetricWindow N)) → Nodup (keys m) → Nodup (keys (keep_complete m))
  unfolding keep_complete
  keep_complete-Nodup [] n = n
  keep_complete-Nodup ((j, w) ∷ m) n =
      let tail = Nodup-cons.0 n in
      elim (Bool-cases (not w.has_calls || not w.has_latency)) [
        | inl e ↦ rw e (keep_complete-Nodup m tail.1)
        | inr e ↦
            rw e (
              Nodup-cons.1 (λ h. tail.0 (keep_complete-subset m j h), keep_complete-Nodup m tail.1))
      ]

  pub sampled_metrics-Nodup : (ds : List (Delta N)) → Nodup (keys (sampled_metrics ds pair))
  unfolding sampled_metrics
  sampled_metrics-Nodup ds =
      keep_complete-Nodup (collect_windows pair ds []) (collect-Nodup ds [] Nodup-nil)

  -- The window that `sampledMetrics` has for an object is the fold of its samples, if that is complete.
  pub lookup-sampled_metrics :
      (ds : List (Delta N)) (id : String)
      → lookup (sampled_metrics ds pair) id ≡ complete (window_of none (samples_of id ds))
  unfolding sampled_metrics lookup
  lookup-sampled_metrics ds id =
      lookup-keep_complete (collect_windows pair ds []) id (collect-Nodup ds [] Nodup-nil)
      ∙ ap complete (collect-window ds [] id)
