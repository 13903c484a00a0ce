-- ===== src/Tests/Adapters.antt =====
-- A registry with the two adapters of the program.
use mathlib.Core.List.{Nodup}
use dbprobe.Base.{String, List, [], ◌∷◌, ◌≡◌, ◌==◌, inl, refl, map}
use dbprobe.Base.GoMap.{lookup, insert}
use dbprobe.Base.Lists.{All}
use dbprobe.Registry.{Adapter, Registry, new_registry, refusal}
use dbprobe.Registry.Laws.{IsUsable, new_registry-AreUsable}

abbrev speaking : String → Adapter
speaking id = record {
  metadata = record { id = id; name = id; version = "0.1.0"; contract_version = "v0.1" };
  is_match = λ spec. spec.scheme == id;
}

abbrev both : List Adapter
both = speaking "mysql" ∷ speaking "fake" ∷ []

abbrev both_registry : Registry
both_registry = record { adapters = both }

both_taken : new_registry both ≡ inl both_registry
unfolding new_registry refusal lookup insert
both_taken = refl

new_registry-AreUsable_example :
    (both ≡ both) × All IsUsable both × Nodup (map (λ a. a.metadata.id) both)
new_registry-AreUsable_example = new_registry-AreUsable both {r = both_registry} both_taken
