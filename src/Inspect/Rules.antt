-- ===== src/Inspect/Rules.antt =====
-- internal/app/inspect/service.go: the rules that an inspection runs. A nil rule is `none`.
pub mod Laws
use mathlib.Core.List
use dbprobe.Base.{String, Option, none, some, Bool, true, false, List, [], ◌∷◌, ◌++◌, if◌then◌else◌}
use dbprobe.Base.GoMap.{GoMap, lookup, insert}
use dbprobe.Findings.Totals.{connection_saturation_rule}
use dbprobe.Sdk.Capability.{CapabilitySet, has_all}
use dbprobe.Sdk.Finding.{Finding, AnalysisContext, Rule}
use dbprobe.Sdk.Number.{Float64}

abbrev pub core_rules : {N : Type 0} ⦃f : Float64 N⦄ → List (Option (Rule N))
core_rules = some connection_saturation_rule ∷ []

module _ {N : Type 0} where
  -- `if _, exists := seen[id]; exists { continue }`, and the rest of the body
  unfoldable pub add_rule :
      Rule N
      → Option (Unit {0})
      → List (Rule N) × GoMap (Unit {0})
      → List (Rule N) × GoMap (Unit {0})
  add_rule rule (some _) (combined, seen) = (combined, seen)
  add_rule rule none (combined, seen) = (combined ++ (rule ∷ []), insert rule.id tt seen)

  -- one of the two loops of `composeRules`
  unfoldable pub add_rules :
      List (Option (Rule N)) → List (Rule N) × GoMap (Unit {0}) → List (Rule N) × GoMap (Unit {0})
  unfolding add_rule
  add_rules [] state = state
  add_rules (none ∷ rules) state = add_rules rules state
  add_rules (some rule ∷ rules) state =
      add_rules rules (add_rule rule (lookup state.1 rule.id) state)

  unfoldable pub compose_rules : List (Option (Rule N)) → List (Option (Rule N)) → List (Rule N)
  compose_rules core adapter = (add_rules adapter (add_rules core ([], []))).0

  -- the loop of `Run` over the rules
  unfoldable pub run_rules : CapabilitySet → AnalysisContext N → List (Rule N) → List (Finding N)
  run_rules caps analysis [] = []
  run_rules caps analysis (rule ∷ rules) =
      let rest = run_rules caps analysis rules in
      if has_all caps rule.requires then rule.evaluate analysis ++ rest else rest
