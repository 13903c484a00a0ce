-- ===== src/Temporal/Snapshot/Laws.antt =====
-- What `NewSnapshot` promises of the snapshot that it returns.

use dbprobe.Base.{
  String, subst, not, Option, none, some, false, List, [], ◌∷◌, ◌==◌, ◌≡◌, ◌↔◌, refl, arith, ◌≢◌,
  eq_iff,
}
use dbprobe.Base.Lists.{All, filter}
use dbprobe.Base.Outcome.{ok}
use dbprobe.Sdk.Capability.Laws.{IsListOf, sort_strings-add_all-IsListOf, sort_strings-add_all_ext}
use dbprobe.Sdk.Clock.{is_zero, utc, utc_idem, is_zero-utc}
use dbprobe.Sdk.Finding.{Finding}
use dbprobe.Sdk.Signal.{Observation, sensitivity_query_text}
use dbprobe.Temporal.Snapshot.{
  snapshot_schema_version, Hash, SnapshotInput, Snapshot, normalize_capabilities, clone_observation,
  clone_observations, clone_findings, snapshot_id, new_snapshot, input_of, copy,
}

copy_lem : {A : Type 0} (o : Option A) → copy o ≡ o
copy_lem none = refl
copy_lem (some a) = refl

module _ {N : Type 0} where
  -- A copy of an observation is equal to it.
  pub clone_observation_lem : (o : Observation N) → clone_observation o ≡ o
  unfolding clone_observation
  clone_observation_lem o = simp copy_lem

  abbrev pub HidesQueryText : Observation N → Type 0
  HidesQueryText o = o.sensitivity ≢ sensitivity_query_text

  -- What is kept is, in order, what is not query text.
  pub clone_observations-eq-filter :
      (l : List (Observation N))
      → clone_observations l ≡ filter (λ o. not (o.sensitivity == sensitivity_query_text)) l
  unfolding clone_observations
  clone_observations-eq-filter [] = refl
  clone_observations-eq-filter (o ∷ l) =
      ground (arith, clone_observations-eq-filter l, clone_observation_lem o)

  clone_observations_clean : (l : List (Observation N)) → All HidesQueryText (clone_observations l)
  unfolding clone_observations
  clone_observations_clean [] = tt
  clone_observations_clean (o ∷ l) =
      ground (arith, clone_observations_clean l, eq_iff o.sensitivity sensitivity_query_text)

  clone_observations_idem :
      (l : List (Observation N)) → clone_observations (clone_observations l) ≡ clone_observations l
  unfolding clone_observations
  clone_observations_idem [] = refl
  clone_observations_idem (o ∷ l) = ground (arith, clone_observations_idem l)

  clone_findings_idem :
      (l : List (Finding N)) → clone_findings (clone_findings l) ≡ clone_findings l
  unfolding clone_findings
  clone_findings_idem [] = refl
  clone_findings_idem (f ∷ l) =
      ground (arith, clone_findings_idem l, clone_observations_idem f.evidence)

  -- The evidence of every finding.
  abbrev pub Evidence : (Observation N → Type 0) → List (Finding N) → Type 0
  Evidence P = All (λ f. All P f.evidence)

  clone_findings_clean : (l : List (Finding N)) → Evidence HidesQueryText (clone_findings l)
  unfolding clone_findings
  clone_findings_clean [] = tt
  clone_findings_clean (f ∷ l) = (clone_observations_clean f.evidence, clone_findings_clean l)

normalize_capabilities_idem :
    (l : List String) → normalize_capabilities (normalize_capabilities l) ≡ normalize_capabilities l
unfolding normalize_capabilities
normalize_capabilities_idem l =
    sort_strings-add_all_ext _ _ (sort_strings-add_all-IsListOf l).members

module _ {N : Type 0} (hash : Hash) where
  -- What a snapshot made from `input` is.
  pub record IsMadeFrom (input : SnapshotInput N) (s : Snapshot N) : Type 0 where
    pub version : s.schema_version ≡ snapshot_schema_version
    pub identity : s.id ≡ snapshot_id hash s.target_fingerprint s.collected_at
    pub same_target : s.target_fingerprint ≡ input.target_fingerprint
    pub named : (s.target_fingerprint ≢ "") × (s.engine ≢ "") × (s.adapter_id ≢ "")
    pub in_utc : s.collected_at ≡ utc input.collected_at
    pub dated : is_zero s.collected_at ≡ false
    pub capabilities : IsListOf input.capabilities s.capabilities
    pub observations : All HidesQueryText s.observations
    pub evidence : Evidence HidesQueryText s.findings
    pub deltas : s.deltas ≡ input.deltas

  pub record IsComplete (input : SnapshotInput N) : Type 0 where
    pub target : input.target_fingerprint ≢ ""
    pub engine : input.engine ≢ ""
    pub adapter : input.adapter_id ≢ ""
    pub time : is_zero input.collected_at ≡ false

  -- The snapshot that `NewSnapshot` returns when it returns one.
  abbrev made : SnapshotInput N → Snapshot N
  made input = record {
    schema_version = snapshot_schema_version;
    id = snapshot_id hash input.target_fingerprint (utc input.collected_at);
    target_fingerprint = input.target_fingerprint;
    engine = input.engine;
    adapter_id = input.adapter_id;
    adapter_version = input.adapter_version;
    collected_at = utc input.collected_at;
    capabilities = normalize_capabilities input.capabilities;
    observations = clone_observations input.observations;
    deltas = input.deltas;
    findings = clone_findings input.findings;
  }

  module _ (input : SnapshotInput N) where
    new_snapshot-made : IsComplete input → new_snapshot hash input ≡ ok (made input)
    unfolding new_snapshot
    new_snapshot-made c = ground (
      arith,
      eq_iff input.target_fingerprint "",
      eq_iff input.engine "",
      eq_iff input.adapter_id "",
    )

    made_of_ok :
        {s : Snapshot N} → new_snapshot hash input ≡ ok s → IsComplete input × (made input ≡ s)
    unfolding new_snapshot
    made_of_ok h = (
      record {
        target = ground (arith, eq_iff input.target_fingerprint "");
        engine = ground (arith, eq_iff input.engine "");
        adapter = ground (arith, eq_iff input.adapter_id "");
        time = ground arith;
      },
      ground arith,
    )

    -- `NewSnapshot` returns a snapshot exactly when target, engine, adapter and time are given.
    pub new_snapshot-ok_iff :
        ((s : Snapshot N) × (new_snapshot hash input ≡ ok s)) ↔ IsComplete input
    new_snapshot-ok_iff = (λ (s, h). (made_of_ok h).0, λ c. (made input, new_snapshot-made c))

    made-IsMadeFrom : IsComplete input → IsMadeFrom input (made input)
    unfolding normalize_capabilities
    made-IsMadeFrom c = record {
      version = refl;
      identity = refl;
      same_target = refl;
      named = (c.target, c.engine, c.adapter);
      in_utc = refl;
      dated = rw is_zero-utc c.time;
      capabilities = sort_strings-add_all-IsListOf input.capabilities;
      observations = clone_observations_clean input.observations;
      evidence = clone_findings_clean input.findings;
      deltas = refl;
    }

    -- Every snapshot that `NewSnapshot` returns carries its version and identity, has a target, an
    -- engine and an adapter, is in UTC, lists the capabilities sorted and each once, keeps the
    -- deltas, and holds no query text, in its observations or in its findings.
    pub new_snapshot-IsMadeFrom :
        {s : Snapshot N} → new_snapshot hash input ≡ ok s → IsMadeFrom input s
    new_snapshot-IsMadeFrom h =
        let (c, e) = made_of_ok h in subst (IsMadeFrom input) e (made-IsMadeFrom c)

  -- To make a snapshot again from a snapshot changes nothing.
  pub new_snapshot_idem :
      (input : SnapshotInput N) {s : Snapshot N}
      → new_snapshot hash input ≡ ok s
      → new_snapshot hash (input_of s) ≡ ok s
  unfolding new_snapshot
  new_snapshot_idem input {s} h = ground (
    arith,
    normalize_capabilities_idem input.capabilities,
    clone_observations_idem input.observations,
    clone_findings_idem input.findings,
    utc_idem input.collected_at,
    is_zero-utc input.collected_at,
  )
