-- ===== src/Adapters.antt =====
-- programs/mpl-core/src/plugins/external and external_plugin_adapters.rs: how the external plugin
-- adapters answer.
pub mod Derive
pub mod Oracle
pub mod AgentIdentity
pub mod Dispatch
