-- ===== src/Inspect/Service/Laws.antt =====
-- What an inspection reports, and what it leaves in the history.
use dbprobe.Base.{ℕ, String, Option, some, [], ◌∷◌, ◌++◌, ◌≡◌, ◌≢◌, ◌⊎◌}
use dbprobe.Base.Outcome.{Outcome, ok}
use dbprobe.Collection.Planner.{Environment, run}
use dbprobe.Collection.Result.{Result}
use dbprobe.Inspect.History.{Report, history_incomplete, persist_history}
use dbprobe.Inspect.Service.{Runtime, Outside, with_warning, report_of}
use dbprobe.Registry.{Registry}
use dbprobe.Sdk.Number.{Float64}
use dbprobe.Temporal.Snapshot.{Hash, Snapshot}

-- What an inspection that succeeds has collected, and from which runtime.
pub record IsInspected {N : Type 0} ⦃f : Float64 N⦄ (outside : Outside N) (p : Environment N)
    (sample_window : ℕ) (report : Report N) : Type 0 where
  pub runtime : Runtime N
  pub collected : Result N
  pub collects : run p runtime.capabilities runtime.collectors sample_window ≡ ok collected
  pub reports : report ≡ report_of outside runtime collected

module _ {N S : Type 0} ⦃f : Float64 N⦄ (hash : Hash)
    (save_to : S → Snapshot N → S × Outcome (Unit {0})) where
  -- how the history takes a report
  abbrev pub IsKept : S → Report N → String → Option S × Outcome (Report N) → Type 0
  IsKept store report version (after, outcome) =
      ((report.warnings ≡ [])
        × (after ≡ (persist_history hash save_to (some store) report version).0)
        × (outcome
            ≡ ok (record report {
              warnings =
                  with_warning (persist_history hash save_to (some store) report version).1 [];
            })))
      ⊎ ((report.warnings ≢ [])
          × (after ≡ some store)
          × (outcome
              ≡ ok (record report { warnings = report.warnings ++ (history_incomplete ∷ []) })))
