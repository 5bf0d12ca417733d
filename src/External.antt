-- ===== src/External.antt =====
-- programs/mpl-core/src/plugins/external_plugin_adapters.rs and external: third party plugins.
mod Types
mod Order
pub mod Infos
pub use Types.*
unfoldable pub use Order.{external_key_cmp}
