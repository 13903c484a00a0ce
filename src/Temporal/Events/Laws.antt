-- ===== src/Temporal/Events/Laws.antt =====
-- What `DeriveEvents` promises.
use Prim.Native.String.{◌++◌}
use mathlib.Core.List
use mathlib.Core.List.{Perm, perm_middle}
use mathlib.Core.List.Perm
use dbprobe.Base.{
  map, Bool-cases, inl, inr, String, true, false, ◌||◌, List, [], ◌∷◌, ◌==◌, ◌≡◌, refl, arith,
  eq_iff,
}
use dbprobe.Base.Lists.{All, All-append, All-map, filter}
use dbprobe.Base.Sort.{
  sort-IsSorted, sort-perm, All-sort, IsSorted, IsWeakOrder, less_on-IsWeakOrder,
  less_by-IsWeakOrder,
}
use dbprobe.Sdk.Clock.{Time, is_zero, utc, before}
use dbprobe.Sdk.Number.{Float64}
use dbprobe.Temporal.Diff.{Change, Diff}
use dbprobe.Temporal.Events.{
  Event, event_of_change, change_event, change_events, regression_event, event_less, derive_events,
}
use dbprobe.Temporal.Regression.{QueryRegression, object_identity}

event_less-IsWeakOrder : {N : Type 0} → IsWeakOrder (event_less {N = N})
unfolding event_less
event_less-IsWeakOrder =
    less_by-IsWeakOrder (λ e. e.type) _
      (less_by-IsWeakOrder (λ e. object_identity e.object) _
        (less_on-IsWeakOrder (λ e. e.signal_key)))

module _ {N : Type 0} ⦃f : Float64 N⦄ where
  -- An event that is dated between the two inspections, in UTC.
  abbrev pub IsDated : Time → Time → Event N → Type 0
  IsDated after_at before_at e =
      (e.observed_after ≡ utc after_at) × (e.observed_before ≡ utc before_at)

  module _ (a b : Time) where
    change_events-IsDated :
        (changes : List (Change N)) → All (IsDated a b) (change_events (utc a) (utc b) changes)
    unfolding change_events
    change_events-IsDated [] = tt
    change_events-IsDated (c ∷ changes) = ground (arith, change_events-IsDated changes)

    regression_event-IsDated :
        (r : QueryRegression N) → IsDated a b (regression_event (utc a) (utc b) r)
    unfolding regression_event
    regression_event-IsDated r = (refl, refl)

    -- The event that a change is announced by.
    abbrev pub announced : String → (Change N → String) → Change N → Event N
    announced type summary c = record {
      type = type;
      object = c.object;
      signal_key = c.key;
      summary = summary c;
      confidence = f.lit 75 2;
      observed_after = a;
      observed_before = b;
    }

    abbrev pub reset_event : Change N → Event N
    reset_event =
        announced "signal_reset"
          (λ c. "Signal " ++ c.key ++ " reset for " ++ c.object.kind ++ ":" ++ c.object.id ++ ".")

    abbrev pub appeared_event : Change N → Event N
    appeared_event =
        announced "object_appeared" (λ c.
          "Observed " ++ c.object.kind ++ ":" ++ c.object.id ++ " for signal " ++ c.key ++ ".")

    abbrev pub disappeared_event : Change N → Event N
    disappeared_event = announced "object_disappeared" (λ c.
        "No longer observed " ++ c.object.kind ++ ":" ++ c.object.id ++ " for signal " ++ c.key
        ++ ".")

    abbrev pub of_kind : String → List (Change N) → List (Change N)
    of_kind kind = filter (λ c. c.kind == kind)

    -- The events of the changes, kind by kind.
    abbrev pub announcements : List (Change N) → List (Event N)
    announcements changes = List.◌++◌ (map reset_event (of_kind "reset" changes)) (
        List.◌++◌ (map appeared_event (of_kind "added" changes))
          (map disappeared_event (of_kind "removed" changes)))

    -- The event that a query regression is announced by.
    abbrev pub slower_event : QueryRegression N → Event N
    slower_event r = record {
      type = "query_regression";
      object = r.object;
      signal_key = "";
      summary =
          "Mean query latency increased from "
          ++ f.fixed 2 r.previous_mean_latency_ms
          ++ "ms to "
          ++ f.fixed 2 r.current_mean_latency_ms
          ++ "ms ("
          ++ f.fixed 2 r.ratio
          ++ "x) in the sampled window.";
      confidence = f.lit 90 2;
      observed_after = a;
      observed_before = b;
    }

    regression_events-perm :
        (regressions : List (QueryRegression N))
        → Perm (map (regression_event a b) regressions) (map slower_event regressions)
    unfolding regression_event
    regression_events-perm regressions = Perm.refl _

    change_events-perm :
        (changes : List (Change N)) → Perm (change_events a b changes) (announcements changes)
    unfolding change_events change_event event_of_change
    change_events-perm [] = Perm.nil
    change_events-perm (c ∷ changes) =
        let rest = change_events-perm changes in
        let resets = map reset_event (of_kind "reset" changes) in
        let added = map appeared_event (of_kind "added" changes) in
        let removed = map disappeared_event (of_kind "removed" changes) in
        elim (Bool-cases (c.kind == "reset")) [
          | inl r ↦ let k = (eq_iff c.kind "reset").0 r in rw k (Perm.cons _ rest)
          | inr r ↦ elim (Bool-cases (c.kind == "added")) [
            | inl e ↦
                let k = (eq_iff c.kind "added").0 e in
                rw k (
                  Perm.trans (Perm.cons _ rest)
                    (Perm.symm (perm_middle resets (List.◌++◌ added removed))))
            | inr e ↦ elim (Bool-cases (c.kind == "removed")) [
              | inl d ↦
                  let k = (eq_iff c.kind "removed").0 d in
                  rw k (
                    Perm.trans (Perm.cons _ rest) (
                      Perm.trans (Perm.symm (perm_middle resets (List.◌++◌ added removed)))
                        (Perm.append_left resets (Perm.symm (perm_middle added removed)))))
              | inr d ↦ rw (r, e, d) rest
            ]
          ]
        ]

  -- The events of two inspections that are dated, the second not before the first.
  pub record IsDerived (diff : Diff N) (regressions : List (QueryRegression N)) (a b : Time)
      (events : List (Event N)) : Type 0 where
    pub sorted : IsSorted event_less events
    pub dated : All (IsDated a b) events
    pub one_each : Perm events (
        List.◌++◌
          (announcements (utc a) (utc b) diff.changes)
          (map (slower_event (utc a) (utc b)) regressions))

  -- Between two dated inspections, the second not before the first, the events are, sorted, one for
  -- each reset, appearance and disappearance of the diff and for each query regression, and no others:
  -- each has its type, its object, key and summary, its confidence, and the two times in UTC.
  pub derive_events-IsDerived :
      (diff : Diff N) (regressions : List (QueryRegression N)) (a b : Time)
      → is_zero a ≡ false
      → is_zero b ≡ false
      → before b a ≡ false
      → IsDerived diff regressions a b (derive_events diff regressions a b)
  unfolding derive_events
  derive_events-IsDerived diff regressions a b ha hb hab =
      rw (ha, hb, hab)
        (record {
          sorted = sort-IsSorted event_less event_less-IsWeakOrder _;
          dated = All-sort (IsDated a b) event_less _ (
              All-append (IsDated a b) _ _ (change_events-IsDated a b diff.changes)
                (All-map (IsDated a b) _ (regression_event-IsDated a b) regressions));
          one_each = Perm.trans (sort-perm event_less _) (
              Perm.append (change_events-perm (utc a) (utc b) diff.changes)
                (regression_events-perm (utc a) (utc b) regressions));
        })

  -- Undated or reversed inspections have no events.
  pub derive_events_invalid :
      (diff : Diff N) (regressions : List (QueryRegression N)) (a b : Time)
      → ((is_zero a || is_zero b || before b a) ≡ true)
      → derive_events diff regressions a b ≡ []
  unfolding derive_events
  derive_events_invalid diff regressions a b h = rw h
