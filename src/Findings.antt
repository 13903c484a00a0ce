-- ===== src/Findings.antt =====
-- adapters/mysql/findings and internal/core/findings: the rules that read observations and deltas.
pub mod Groups
pub mod Observed
pub mod Rules
pub mod Totals
pub mod Chain
pub mod Indexes
pub mod Sampled
pub mod Engine
use dbprobe.Base.{String, ℕ, Option, none, some, if◌then◌else◌}
use dbprobe.Sdk.Number.{Float64, ge}

-- `switch { case value >= critical: …; case value >= warn: …; default: continue }`
unfoldable pub severity_at : {N : Type 0} ⦃f : Float64 N⦄ → N → N → N → Option String
severity_at value critical warn =
    if ge value critical then some "critical" else if ge value warn then some "warn" else none

-- a severity of "warn" that a value from `critical` on raises
unfoldable pub severity_from : {N : Type 0} ⦃f : Float64 N⦄ → N → N → String
severity_from value critical = if ge value critical then "critical" else "warn"
