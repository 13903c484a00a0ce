-- ===== src/Sqlite/Store/Represents.antt =====
-- The snapshots that a database holds, and the order of their rows.

use dbprobe.Base.{
  ◌+◌, ◌-◌, ◌^◌, ◌≤◌, ◌<◌, ltb, leb, String, Bool, true, ◌&&◌, List, [], ◌∷◌, ◌==◌, ◌≡◌, refl, ap,
  ◌∙◌, inl, inr, arith, Bool-cases, map,
}
use dbprobe.Base.Lists.{All, filter}
use dbprobe.Base.Outcome.{ok}
use dbprobe.Base.Sort.{sort, sort_insert, IsWeakOrder}
use dbprobe.Base.Text.{str_lt-asym, str_lt-cotrans}
use dbprobe.Baseline.Spec.{newest_first}
use dbprobe.Sdk.Clock.{Time, after, same_instant}
use dbprobe.Sqlite.Codec.{Json, decode_snapshot}
use dbprobe.Sqlite.Database.{unix_nano, unix_epoch, Row, Database, row_newest}
use dbprobe.Temporal.Snapshot.{Hash, Snapshot}

module _ {ℓ κ} {A : Type ℓ} {B : Type κ} (g : A → B) where
  sort_insert-map :
      (less : B → B → Bool) (x : A) (xs : List A)
      → sort_insert less (g x) (map g xs) ≡ map g (sort_insert (λ a b. less (g a) (g b)) x xs)
  unfolding sort_insert
  sort_insert-map less x [] = refl
  sort_insert-map less x (y ∷ ys) = elim (Bool-cases (less (g y) (g x))) [
    | inl e ↦ rw e (ap (◌∷◌ (g y)) (sort_insert-map less x ys))
    | inr e ↦ rw e refl
  ]

  -- To sort what a function gives is to sort by what it gives.
  pub sort-map :
      (less : B → B → Bool) (xs : List A)
      → sort less (map g xs) ≡ map g (sort (λ a b. less (g a) (g b)) xs)
  unfolding sort
  sort-map less [] = refl
  sort-map less (x ∷ xs) = ap (sort_insert less (g x)) (sort-map less xs) ∙ sort_insert-map less x _

  pub filter-map :
      (p : B → Bool) (xs : List A) → filter p (map g xs) ≡ map g (filter (λ a. p (g a)) xs)
  filter-map p [] = refl
  filter-map p (x ∷ xs) = elim (Bool-cases (p (g x))) [
    | inl e ↦ rw e (ap (◌∷◌ (g x)) (filter-map p xs))
    | inr e ↦ rw e (filter-map p xs)
  ]

-- an instant between the years 1678 and 2262, which `UnixNano` counts without wrapping around
abbrev pub in_range : Time → Bool
in_range t = leb (unix_epoch - 2 ^ 63) t.instant && ltb t.instant (unix_epoch + 2 ^ 63)

pub unix_nano_lem : (t : Time) → in_range t ≡ true → unix_nano t ≡ t.instant + 2 ^ 63 - unix_epoch
unfolding unix_nano
unix_nano_lem t h =
    let low : unix_epoch - 2 ^ 63 ≤ t.instant = ground arith in
    let high : t.instant < unix_epoch + 2 ^ 63 = ground arith in omega arith

pub row_newest-IsWeakOrder : IsWeakOrder row_newest
row_newest-IsWeakOrder = record {
  asym = λ a b h. ground (arith, str_lt-asym b.id a.id);
  cotrans = λ a b c h k. ground (arith, str_lt-cotrans c.id b.id a.id);
}

module _ {N : Type 0} where
  -- The row that stands for a snapshot and its payload: each column is that field of the snapshot, and
  -- the time is counted in nanoseconds.
  abbrev pub entry_row : Snapshot N × String → Row
  entry_row (s, payload) = record {
    id = s.id;
    target_fingerprint = s.target_fingerprint;
    engine = s.engine;
    adapter_id = s.adapter_id;
    adapter_version = s.adapter_version;
    schema_version = s.schema_version;
    collected_at_ns = unix_nano s.collected_at;
    payload = payload;
  }

  -- The order of the rows is the order of the snapshots.
  pub row_newest-newest_first :
      (a b : Snapshot N × String)
      → in_range a.0.collected_at ≡ true
      → in_range b.0.collected_at ≡ true
      → row_newest (entry_row a) (entry_row b) ≡ newest_first a.0 b.0
  unfolding newest_first after same_instant
  row_newest-newest_first a b ha hb =
      rw (unix_nano_lem a.0.collected_at ha, unix_nano_lem b.0.collected_at hb) (ground arith)

  -- The entries of a database: snapshots with their payloads, each read back from its payload and of
  -- a time that `UnixNano` can count.
  pub record Represents (hash : Hash) (json : Json N) (entries : List (Snapshot N × String))
      (db : Database N) : Type 0 where
    pub rows : db.snapshots ≡ map entry_row entries
    pub reads : All (λ e. decode_snapshot hash json e.1 ≡ ok e.0) entries
    pub ranges : All (λ e. in_range e.0.collected_at ≡ true) entries

  abbrev pub is_of : String → Snapshot N × String → Bool
  is_of target e = e.0.target_fingerprint == target

  -- the snapshots that are held for a target
  abbrev pub stored_for : List (Snapshot N × String) → String → List (Snapshot N)
  stored_for entries target = map (λ e. e.0) (filter (is_of target) entries)
