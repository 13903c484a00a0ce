-- ===== src/Tests.antt =====
-- The theorems on concrete inputs.
mod Data
mod Temporal
mod Regressions
mod Store
mod Rules
mod Objects
mod Adapters
mod Inspection
mod Collection
mod Sqlite
mod Explain
mod Service
mod Targets
mod Mysql
