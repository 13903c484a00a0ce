-- ===== src/Baseline.antt =====
-- Where snapshots are kept: what a store answers, and the stores.
pub mod Spec
pub mod Memory
