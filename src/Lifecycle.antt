-- ===== src/Lifecycle.antt =====
-- programs/mpl-core/src/plugins/lifecycle.rs: what each plugin may say of a lifecycle event, and
-- how the answers of all plugins are put together.
mod Types
mod Checks
mod Tally
mod Arguments
pub mod Validate
pub mod Strongest
pub mod Outcome
pub mod Inversion
pub mod Externals
pub use Types.*
unfoldable pub use Checks.*
unfoldable pub use Tally.*
pub use Arguments.*
