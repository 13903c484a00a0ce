-- ===== src/Explain.antt =====
-- adapters/mysql/explain.go and explain_sanitize.go: which statements are explained, and what of a
-- plan is shown.
pub mod Sanitizer
pub mod Statement
