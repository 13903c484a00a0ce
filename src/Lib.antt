-- ===== src/Lib.antt =====
-- dbprobe inspects a database, keeps what it saw, and reports what is wrong and what changed. An
-- adapter's collectors give observations and deltas; rules turn these into findings; an inspection
-- becomes a snapshot, which a store keeps; two snapshots of one target give a diff, and the diff and
-- the query regressions between them give events.
--
-- The parts, and the files that model them:
-- * Sdk (sdk/signal, sdk/object, sdk/capability/capability.go, sdk/finding/finding.go): the data that
--   the parts exchange. `Signal` has `Ref`, `Observation`, `Delta`; `Capability` the set of names with
--   `New`, `Has`, `HasAll`, `List`; `Finding` what a rule takes and returns. `Clock` is Go's
--   `time.Time`, and `Number` is `float64`: a type with its comparisons and operations, about which
--   nothing is assumed.
-- * Temporal (internal/core/temporal): `Snapshot` is snapshot.go (`NewSnapshot` is `new_snapshot`),
--   `Diff` is diff.go (`Compare` is `compare`, its loops `scan_observations` and `changes_at`),
--   `Regression` is query_regression.go (`DetectQueryRegressions`, `sampledMetrics`, with the body of
--   the loop as `judge`), `Events` is events.go (`DeriveEvents`). `Diff/Expected` has the
--   specification of a diff: no maps, only the observations that share an identity.
-- * Baseline (internal/core/temporal/store.go): `Spec` says what a store answers, of the collection
--   that it holds; `Memory` is internal/platform/baseline/memory.go (`Save`, `Latest`, `Previous`,
--   `List`).
-- * Collection (sdk/collector/collector.go, internal/core/collection/planner.go): `Pool` is `runBatch`,
--   its feeder, its workers and the context as a state (`start`) with steps (`step`): a schedule is a
--   list of steps, and when it has said all, `drive` lets the goroutines that can run go on.
--   `Samples` has the loops of `Run` over the results of the batches, `Planner` is `Run`.
-- * Sqlite (internal/platform/sqlite): `Codec` is codec.go (`encodeSnapshot`, `decodeSnapshot`,
--   `extractTrendMetrics`); `Database` has the rows of the two tables and what the statements of SQL
--   select and insert; `Store` is baseline.go (`Save`, `Latest`, `Previous`, `List`), where an input
--   says which calls of the driver fail; `Migrations` is migrations.go. A transaction works on a copy
--   of what the database holds, which the commit keeps and the deferred rollback drops.
-- * Explain (adapters/mysql): `Statement` is explain.go, which statements are explained and what is
--   sent (`explainWithExecutor`), with `Words` for where words stand in a text; `Sanitizer` is
--   explain_sanitize.go, what is kept of a plan in JSON.
-- * Mysql (adapters/mysql): `Config` is config.go without `sanitizeError`, `Capabilities` is
--   capabilities.go, the statements that are tried to find out what a server can be asked.
-- * Findings (adapters/mysql/findings, internal/core/findings/connections.go, and `Rules` of
--   adapters/mysql/runtime.go): each rule is the body of its loop, which may `continue`, and the loop.
--   `Groups` has `groupDeltas`, `sortedDeltaGroups` and `firstNumber`, `Observed` the rules on single
--   observations, `Sampled` and `Engine` those on deltas, `Indexes` those on indexes, `Totals` those
--   that put several observations together, and `Chain` the graph of transactions that wait.
-- * Inspect (internal/app/inspect): `Rules` has `composeRules` and the loop of `Run` over the rules,
--   `History` is history.go (`persistHistory`), `Service` is `Run`, from a target to a report.
-- * DiffReport (internal/app/diff/service.go): the report on the two newest snapshots of a target.
-- * Targets (internal/app/target, internal/app/diff/target_service.go, internal/app/explain): the
--   services that begin with the URL of a target, `Resolve` and the two `Run`.
-- * Registry (internal/platform/adapterregistry/registry.go): `New` and `Resolve`. A refusal is which
--   check failed, without its wording.
-- * Base has lists, sorting, Go's maps, strings and errors. Tests: runs and concrete inputs.
--
-- A Go map is an association list with each key once (`Base/GoMap`). Go leaves the order of a `range`
-- open; the model takes one order, which a sort by a total comparison forgets (`Base/Sort`).
-- `sort.Slice` is insertion sort, which puts equal elements in some order, as Go may. An error is its
-- message. A pointer to a value is an `Option`, and a field with its `has` flag is one `Option` too.
-- The mutex of the store makes each method one step, so a method is a function of the state.
--
-- What comes from outside the repository is a parameter: the digest and the time format of an
-- identity (`Hash`), what a collector answers, the clock and the waiter, JSON, the failures of the
-- driver of SQLite, the parsers of URLs and of the driver of MySQL, what a statement that is tried
-- answers, and the verbs `%d` and `%q` of the format library in two rules. `%.1f` and its like are an
-- operation of `Number`.
--
-- Fuel: `blockingDepth` has one more than there are transactions that wait; each call that goes on
-- adds one of these to the path, so the fuel does not run out (`Findings/Chain`). `drive` has as many
-- steps as `steps_left` counts, of which each step of a goroutine that can run takes one at least
-- (`Collection/Pool/Schedule`).
--
-- Not modelled: how a SQLite file is opened, the redaction of errors of MySQL. Not modelled because
-- they are input and output: the SQL of the collectors, the output surfaces, the command line's
-- flags, the data directory, the driver's binding, and the adapter for tests.
pub mod Base
pub mod Sdk
pub mod Temporal
pub mod Sqlite
pub mod Baseline
pub mod Collection
pub mod Explain
pub mod Findings
pub mod Inspect
pub mod DiffReport
pub mod Registry
pub mod Targets
pub mod Mysql
pub mod Tests
