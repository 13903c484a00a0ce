-- ===== src/Sdk/Capability.antt =====
-- sdk/capability/capability.go: a set of capability names.
pub mod Laws
use dbprobe.Base.{String, Option, none, some, Bool, true, false, ◌&&◌, List, [], ◌∷◌}
use dbprobe.Base.GoMap.{GoMap, keys, lookup, insert}
use dbprobe.Base.Sort.{sort_strings}

pub record CapabilitySet : Type 0 where
  pub values : GoMap (Unit {0})

-- the loop of `New`
unfoldable pub add_all : List String → GoMap (Unit {0}) → GoMap (Unit {0})
add_all [] seen = seen
add_all (value ∷ values) seen = add_all values (insert value tt seen)

unfoldable pub new : List String → CapabilitySet
unfolding add_all
new values = record { values = add_all values [] }

unfoldable pub has : CapabilitySet → String → Bool
unfolding lookup
has s value = elim (lookup s.values value) [ none ↦ false | some _ ↦ true ]

unfoldable pub has_all : CapabilitySet → List String → Bool
has_all s [] = true
has_all s (value ∷ values) = has s value && has_all s values

unfoldable pub list : CapabilitySet → List String
list s = sort_strings (keys s.values)
