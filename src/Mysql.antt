-- ===== src/Mysql.antt =====
-- adapters/mysql: how the target of MySQL is configured, and what its server can be asked.
pub mod Config
pub mod Capabilities
