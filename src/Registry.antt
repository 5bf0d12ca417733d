-- ===== src/Registry.antt =====
-- programs/mpl-core/src/plugins/plugin_header.rs and plugin_registry.rs: where the plugins of an
-- account lie, and whom each obeys.
mod Types
pub mod Evaluate
pub mod Lookup
pub use Types.*
