-- ===== src/Sqlite.antt =====
-- internal/platform/sqlite: the store of snapshots in a SQLite database.
pub mod Codec
pub mod Database
pub mod Store
pub mod Migrations
