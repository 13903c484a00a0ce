-- ===== src/Findings/Indexes/Laws.antt =====
-- Which indexes the rule on redundant indexes reports.
use dbprobe.Base.{
  String, some, Bool, true, false, List, [], ◌∷◌, ◌==◌, ◌≡◌, ◌≢◌, arith, eq_iff, if◌then◌else◌,
  Option-cases, Bool-cases, inl, inr, subst, ◌&&◌,
}
use dbprobe.Base.GoMap.{GoMap, lookup}
use Prim.Native.String.{◌++◌}
use dbprobe.Base.GoStrings.{has_prefix}
use dbprobe.Base.Lists.{All}
use dbprobe.Base.Optional.{All-collect}
use dbprobe.Findings.Indexes.{
  IndexState, is_set, value_or, covers, index_states, sorted_index_ids, is_candidate, is_cover,
  first_cover, redundant_index, redundant_indexes,
}
use dbprobe.Sdk.Finding.{Finding, AnalysisContext}
use dbprobe.Sdk.Number.{Float64}

module _ {N : Type 0} where
  -- whether the keys of two indexes are their signatures
  abbrev pub signed : IndexState N → IndexState N → Bool
  signed a b = is_set a.signature && is_set b.signature

  abbrev pub key_of : Bool → IndexState N → String
  key_of by_signature s = value_or "" (if by_signature then s.signature else s.columns)

  abbrev pub IsLeftPrefix : IndexState N → IndexState N → Type 0
  IsLeftPrefix a b =
      (value_or "" a.table ≡ value_or "" b.table)
      × (value_or false b.primary ≡ false)
      × (value_or false b.unique ≡ false)
      × (has_prefix (key_of (signed a b) b)
            (key_of (signed a b) a ++ (if signed a b then ";" else ","))
          ≡ true)

  cover-IsLeftPrefix : (a b : IndexState N) → is_cover a b ≡ true → IsLeftPrefix a b
  unfolding is_cover covers
  cover-IsLeftPrefix a b h = (
    ground (arith, eq_iff (value_or "" a.table) (value_or "" b.table)),
    ground arith,
    ground arith,
    ground (arith, eq_iff (key_of (signed a b) b) (key_of (signed a b) a)),
  )

  -- `b` is another index of the map, which covers `a`.
  pub record Covers (states : GoMap (IndexState N)) (short_id : String) (a b : IndexState N)
      (long_id : String) : Type 0 where
    pub other : short_id ≢ long_id
    pub found : lookup states long_id ≡ some b
    pub cover : IsLeftPrefix a b

  first_cover-Covers :
      (states : GoMap (IndexState N)) (short_id : String) (a b : IndexState N) (ids : List String)
      → first_cover states short_id a ids ≡ some b
      → (long_id : String) × Covers states short_id a b long_id
  unfolding first_cover
  first_cover-Covers states short_id a b [] h = absurd (ground arith)
  first_cover-Covers states short_id a b (long_id ∷ ids) h =
      elim (Bool-cases (short_id == long_id)) [
        | inl e ↦ first_cover-Covers states short_id a b ids (ground (arith, e))
        | inr e ↦ elim (Option-cases (lookup states long_id)) [
          | inl n ↦ first_cover-Covers states short_id a b ids (ground (arith, e, n))
          | inr (c, n) ↦ elim (Bool-cases (is_cover a c)) [
            | inr k ↦ first_cover-Covers states short_id a b ids (ground (arith, e, n, k))
            | inl k ↦
                let same : c ≡ b = ground (arith, e, n, k) in
                (
                  long_id,
                  record {
                    other = ground (arith, e, eq_iff short_id long_id);
                    found = ground (arith, n, same);
                    cover = subst (λ z. IsLeftPrefix a z) same (cover-IsLeftPrefix a c k);
                  },
                )
          ]
        ]
      ]

  -- `y` is about an index that could be dropped: it and another one that covers it are in the map.
  abbrev pub IsRedundant : GoMap (IndexState N) → Finding N → Type 0
  IsRedundant states y =
      (short_id : String) × (a : IndexState N) × (b : IndexState N) × (long_id : String) × (lookup
          states short_id
        ≡ some a)
      × (is_candidate a ≡ true)
      × Covers states short_id a b long_id
      × (y.object ≡ a.ref)

module _ {N : Type 0} ⦃f : Float64 N⦄ where
  redundant_index-IsRedundant :
      (states : GoMap (IndexState N)) (ids : List String) (id : String) (y : Finding N)
      → redundant_index states ids id ≡ some y
      → IsRedundant states y
  unfolding redundant_index
  redundant_index-IsRedundant states ids id y h = elim (Option-cases (lookup states id)) [
    | inl e ↦ absurd (ground (arith, e))
    | inr (a, e) ↦ elim (Option-cases (first_cover states id a ids)) [
      | inl n ↦ absurd (ground (arith, e, n))
      | inr (b, n) ↦
          let (long_id, c) = first_cover-Covers states id a b ids n in
          (id, a, b, long_id, e, ground (arith, e, n), c, ground (arith, e, n))
    ]
  ]

  -- Each finding of the rule on redundant indexes is about an index that is neither primary nor
  -- unique, with a table and columns, that another index of the same table covers: one that is
  -- neither primary nor unique, whose signature, or columns where one has no signature, has the
  -- shorter one's and a separator as a prefix.
  pub redundant_indexes-AreRedundant :
      (ctx : AnalysisContext N)
      → All (IsRedundant (index_states ctx.current)) (redundant_indexes ctx)
  unfolding redundant_indexes
  redundant_indexes-AreRedundant ctx = All-collect _ _ _ (λ id m y.
      redundant_index-IsRedundant (index_states ctx.current)
        (sorted_index_ids (index_states ctx.current)) id y)
