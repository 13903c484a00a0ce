-- ===== src/Sqlite/Database.antt =====
-- internal/platform/sqlite/baseline.go and migrations.go: the two tables, and what the statements of
-- SQL say about them. The text columns are compared by bytes, as strings are.
use dbprobe.Base.{
  ℕ, ◌+◌, ◌-◌, ◌*◌, ◌%◌, ◌^◌, ltb, nat_eq, String, Option, none, some, Bool, ◌&&◌, List, [], ◌∷◌,
  ◌==◌, if◌then◌else◌,
}
use dbprobe.Base.Lists.{filter, take, any}
use dbprobe.Base.Sort.{sort}
use dbprobe.Base.Text.{str_lt}
use dbprobe.Sdk.Clock.{Time}
use dbprobe.Sqlite.Codec.{TrendMetric}

-- nanoseconds from year 1 to 1970
abbrev pub unix_epoch : ℕ
unix_epoch = 62135596800 * 10 ^ 9

-- `UnixNano`, which wraps around at 64 bits, with 2 ^ 63 added to it: so the natural numbers are in
-- the order of the signed ones.
unfoldable pub unix_nano : Time → ℕ
unix_nano t = (t.instant + (4 * 2 ^ 64 + 2 ^ 63) - unix_epoch) % 2 ^ 64

-- a row of `snapshots`
pub record Row : Type 0 where
  pub id : String
  pub target_fingerprint : String
  pub engine : String
  pub adapter_id : String
  pub adapter_version : String
  pub schema_version : String
  pub collected_at_ns : ℕ
  pub payload : String

pub record Database (N : Type 0) : Type 0 where
  pub snapshots : List Row
  pub trend_metrics : List (TrendMetric N)

-- `ORDER BY collected_at_ns DESC, id DESC`
abbrev pub row_newest : Row → Row → Bool
row_newest a b =
    if nat_eq a.collected_at_ns b.collected_at_ns
    then str_lt b.id a.id
    else ltb b.collected_at_ns a.collected_at_ns

abbrev pub of_target : String → Row → Bool
of_target target row = row.target_fingerprint == target

abbrev pub of_target_before : String → ℕ → Row → Bool
of_target_before target ns row = of_target target row && ltb row.collected_at_ns ns

abbrev pub first_row : List Row → Option Row
first_row [] = none
first_row (row ∷ rows) = some row

module _ {N : Type 0} where
  -- `SELECT … FROM snapshots WHERE … ORDER BY …`
  unfoldable pub select : (Row → Bool) → Database N → List Row
  select where_clause db = sort row_newest (filter where_clause db.snapshots)

  -- `listSnapshotsSQL`, with its `LIMIT` if there is one
  unfoldable pub list_snapshots : Database N → String → ℕ → List Row
  unfolding select
  list_snapshots db target limit =
      let rows = select (of_target target) db in if nat_eq limit 0 then rows else take limit rows

  -- `latestSnapshotSQL` and `previousSnapshotSQL`, with `LIMIT 1`
  unfoldable pub latest_snapshot : Database N → String → Option Row
  unfolding select
  latest_snapshot db target = first_row (select (of_target target) db)

  unfoldable pub previous_snapshot : Database N → String → ℕ → Option Row
  unfolding select
  previous_snapshot db target ns = first_row (select (of_target_before target ns) db)

-- `snapshotPayloadByIDSQL`
unfoldable pub payload_by_id : List Row → String → Option String
payload_by_id [] id = none
payload_by_id (row ∷ rows) id = if row.id == id then some row.payload else payload_by_id rows id

-- whether the primary key is taken
abbrev pub has_id : String → List Row → Bool
has_id id rows = any (λ row. row.id == id) rows
