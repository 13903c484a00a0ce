-- ===== src/Registry.antt =====
-- internal/platform/adapterregistry/registry.go: the adapters, and which one takes a target.
pub mod Laws
use dbprobe.Base.{
  String, Option, none, some, Bool, true, false, not, List, [], ◌∷◌, ◌==◌, if◌then◌else◌, ◌⊎◌, inl,
  inr,
}
use dbprobe.Base.GoMap.{GoMap, lookup, insert}

abbrev pub contract_version : String
contract_version = "v0.1"

pub record Metadata : Type 0 where
  pub id : String
  pub name : String
  pub version : String
  pub contract_version : String

pub record TargetSpec : Type 0 where
  pub raw_url : String
  pub scheme : String

-- the part of the interface `adapter.Adapter` that the registry calls
pub record Adapter : Type 0 where
  pub metadata : Metadata
  pub is_match : TargetSpec → Bool

pub record Registry : Type 0 where
  pub adapters : List Adapter

-- which check of `New` fails; `%q` only formats their messages
pub data Refusal : Type 0 where
  empty_id : Refusal
  wrong_contract : String → String → Refusal
  duplicate_id : String → Refusal

-- the loop of `New`: the first refusal, if there is one
unfoldable pub refusal : List Adapter → GoMap (Unit {0}) → Option Refusal
refusal [] seen = none
refusal (candidate ∷ adapters) seen =
    let rest = refusal adapters (insert candidate.metadata.id tt seen) in
    if candidate.metadata.id == ""
    then some empty_id
    else if not (candidate.metadata.contract_version == contract_version)
    then some (wrong_contract candidate.metadata.id candidate.metadata.contract_version)
    else elim (lookup seen candidate.metadata.id) [
      | some _ ↦ some (duplicate_id candidate.metadata.id)
      | none ↦ rest
    ]

unfoldable pub new_registry : List Adapter → Registry ⊎ Refusal
new_registry adapters = elim (refusal adapters []) [
  | none ↦ inl (record { adapters = adapters })
  | some r ↦ inr r
]

unfoldable pub resolve_in : TargetSpec → List Adapter → Option Adapter
resolve_in spec [] = none
resolve_in spec (candidate ∷ adapters) =
    let rest = resolve_in spec adapters in if candidate.is_match spec then some candidate else rest

-- `none` is the error that no adapter matches
unfoldable pub resolve : Registry → TargetSpec → Option Adapter
unfolding resolve_in
resolve r spec = resolve_in spec r.adapters
