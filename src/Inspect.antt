-- ===== src/Inspect.antt =====
-- internal/app/inspect: an inspection, the rules that it runs, and how its report becomes history.
pub mod Rules
pub mod History
pub mod Service
