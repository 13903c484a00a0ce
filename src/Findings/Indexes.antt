-- ===== src/Findings/Indexes.antt =====
-- adapters/mysql/findings/rules.go: the rules on indexes.
pub mod Laws
use Prim.Native.String.{◌++◌}
use dbprobe.Base.{
  String, Option, none, some, Bool, true, false, not, List, [], ◌∷◌, ◌==◌, ◌||◌, ◌&&◌,
  if◌then◌else◌, leb,
}
use dbprobe.Base.GoMap.{GoMap, keys, lookup, insert}
use dbprobe.Base.GoStrings.{byte_len, has_prefix}
use dbprobe.Base.Optional.{◌>>=◌, ◌>>◌, skip_if, collect}
use dbprobe.Base.Sort.{sort_strings}
use dbprobe.Findings.Groups.{first_number}
use dbprobe.Sdk.Finding.{Finding, AnalysisContext, Rule}
use dbprobe.Sdk.Number.{Float64, whole}
use dbprobe.Sdk.Signal.{Observation, Ref}

-- A field and its `has` flag are one `Option`; `value_or` reads the field.
pub record IndexState (N : Type 0) : Type 0 where
  pub ref : Ref
  pub reads : Option N
  pub primary : Option Bool
  pub unique : Option Bool
  pub table : Option String
  pub columns : Option String
  pub signature : Option String

abbrev pub is_set : {A : Type 0} → Option A → Bool
is_set none = false
is_set (some a) = true

abbrev pub value_or : {A : Type 0} → A → Option A → A
value_or zero none = zero
value_or zero (some a) = a

-- `if value != nil { field = *value; hasField = true }`
abbrev pub overwrite : {A : Type 0} → Option A → Option A → Option A
overwrite none old = old
overwrite (some a) old = some a

module _ {N : Type 0} where
  abbrev pub index_or_new : Ref → Option (IndexState N) → IndexState N
  index_or_new ref (some s) = s
  index_or_new ref none = record {
    ref = ref;
    reads = none;
    primary = none;
    unique = none;
    table = none;
    columns = none;
    signature = none;
  }

  -- the `switch` on the key
  unfoldable pub read_index : Observation N → IndexState N → IndexState N
  read_index o s =
      if o.key == "mysql.index.reads"
      then record s { reads = overwrite o.number s.reads }
      else if o.key == "mysql.index.primary"
      then record s { primary = overwrite o.boolean s.primary }
      else if o.key == "mysql.index.unique"
      then record s { unique = overwrite o.boolean s.unique }
      else if o.key == "mysql.index.table"
      then record s { table = overwrite o.text s.table }
      else if o.key == "mysql.index.columns"
      then record s { columns = overwrite o.text s.columns }
      else if o.key == "mysql.index.signature"
      then record s { signature = overwrite o.text s.signature }
      else s

  unfoldable pub add_indexes : List (Observation N) → GoMap (IndexState N) → GoMap (IndexState N)
  unfolding read_index
  add_indexes [] m = m
  add_indexes (o ∷ obs) m = add_indexes obs (
      if o.object.kind == "mysql.index"
      then insert o.object.id (read_index o (index_or_new o.object (lookup m o.object.id))) m
      else m)

  unfoldable pub index_states : List (Observation N) → GoMap (IndexState N)
  index_states obs = add_indexes obs []

  abbrev pub sorted_index_ids : GoMap (IndexState N) → List String
  sorted_index_ids m = sort_strings (keys m)

  unfoldable pub complete_for_redundancy : IndexState N → Bool
  complete_for_redundancy s =
      is_set s.primary && is_set s.unique && is_set s.table && is_set s.columns

  -- whether the shorter index `a` is a left prefix of `b`, by signatures if both have one
  unfoldable pub covers : IndexState N → IndexState N → Bool
  covers a b =
      let signed = is_set a.signature && is_set b.signature in
      let short_key = value_or "" (if signed then a.signature else a.columns) in
      let long_key = value_or "" (if signed then b.signature else b.columns) in
      let separator = if signed then ";" else "," in
      not (leb (byte_len long_key) (byte_len short_key))
      && ((long_key == short_key) || has_prefix long_key (short_key ++ separator))

  -- the tests of the inner loop, for an index `b` other than `a`
  unfoldable pub is_cover : IndexState N → IndexState N → Bool
  unfolding complete_for_redundancy covers
  is_cover a b =
      complete_for_redundancy b
      && not (value_or false b.primary)
      && not (value_or false b.unique)
      && (value_or "" a.table == value_or "" b.table)
      && covers a b

  -- the inner loop, up to its `break`
  unfoldable pub first_cover :
      GoMap (IndexState N) → String → IndexState N → List String → Option (IndexState N)
  unfolding is_cover
  first_cover states short_id a [] = none
  first_cover states short_id a (long_id ∷ ids) =
      let rest = first_cover states short_id a ids in
      if short_id == long_id then rest else elim (lookup states long_id) [
        | none ↦ rest
        | some b ↦ if is_cover a b then some b else rest
      ]

  -- the tests of the outer loop
  unfoldable pub is_candidate : IndexState N → Bool
  unfolding complete_for_redundancy
  is_candidate a =
      complete_for_redundancy a
      && not (value_or false a.primary)
      && not (value_or false a.unique)
      && not (value_or "" a.columns == "")
      && not (value_or "" a.table == "")

module _ {N : Type 0} ⦃f : Float64 N⦄ where
  unfoldable pub unused_index : N → GoMap (IndexState N) → String → Option (Finding N)
  unused_index uptime states id = do
    s ← lookup states id
    reads ← s.reads
    primary ← s.primary
    unique ← s.unique
    skip_if (not (f.eq reads (whole 0)) || primary || unique)
    some (record {
      id = "mysql.unused_index";
      title = "Index has no observed reads";
      severity = "info";
      object = s.ref;
      evidence = [];
      summary =
          "No index reads were observed while server uptime is "
          ++ f.fixed 1 (f.div uptime (whole 3600))
          ++ " hours.";
      guidance =
          "Treat this as a review candidate only. Confirm representative workload, Performance Schema reset history, constraints, and application usage before considering removal.";
      confidence = f.lit 60 2;
    })

  -- the rule, from the uptime of the server
  unfoldable pub unused_since : List (Observation N) → Option (Observation N × N) → List (Finding N)
  unused_since current none = []
  unused_since current (some (o, uptime)) =
      if f.lt uptime (whole 3600)
      then []
      else collect (unused_index uptime (index_states current))
          (sorted_index_ids (index_states current))

  unfoldable pub unused_indexes : AnalysisContext N → List (Finding N)
  unfolding unused_since
  unused_indexes ctx =
      unused_since ctx.current (first_number ctx.current "mysql.server.uptime_seconds" none)

  abbrev pub unused_index_rule : Rule N
  unused_index_rule = record {
    id = "mysql.unused_index";
    requires = "schema.indexes" ∷ "mysql.performance_schema" ∷ [];
    evaluate = unused_indexes;
  }

  unfoldable pub redundant_index : GoMap (IndexState N) → List String → String → Option (Finding N)
  unfolding is_candidate
  redundant_index states ids short_id = do
    a ← lookup states short_id
    skip_if (not (is_candidate a))
    b ← first_cover states short_id a ids
    some (record {
      id = "mysql.redundant_index";
      title = "Index may be redundant";
      severity = "info";
      object = a.ref;
      evidence = [];
      summary =
          "Index columns ("
          ++ value_or "" a.columns
          ++ ") are a left-prefix of "
          ++ b.ref.id
          ++ " ("
          ++ value_or "" b.columns
          ++ ").";
      guidance =
          "Review uniqueness, ordering, prefix lengths, optimizer plans, write cost, and production workload before removing either index.";
      confidence = f.lit 70 2;
    })

  unfoldable pub redundant_indexes : AnalysisContext N → List (Finding N)
  redundant_indexes ctx =
      let states = index_states ctx.current in
      collect (redundant_index states (sorted_index_ids states)) (sorted_index_ids states)

  abbrev pub redundant_index_rule : Rule N
  redundant_index_rule = record {
    id = "mysql.redundant_index";
    requires = "schema.indexes" ∷ [];
    evaluate = redundant_indexes;
  }
