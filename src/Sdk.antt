-- ===== src/Sdk.antt =====
-- The adapter SDK's data (sdk/object, sdk/signal, sdk/capability, sdk/collector, sdk/finding).
pub mod Number
pub mod Clock
pub mod Signal
pub mod Capability
pub mod Finding
