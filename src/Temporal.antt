-- ===== src/Temporal.antt =====
-- internal/core/temporal: snapshots, their comparison, query regressions and events.
pub mod Snapshot
pub mod Diff
pub mod Regression
pub mod Events
