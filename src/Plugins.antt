-- ===== src/Plugins.antt =====
-- programs/mpl-core/src/plugins: the plugins, their data and what they say of each lifecycle event.
mod Types
pub mod Index
mod Equality
mod Lengths
pub use Types.*
pub use Equality.*
unfoldable pub use Lengths.*
