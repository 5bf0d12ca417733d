-- ===== src/State.antt =====
-- programs/mpl-core/src/state: what the accounts hold.
mod Addresses
mod Account
mod Asset
pub mod Collection
pub use Addresses.*
pub use Account.*
unfoldable pub use Asset.*
unfoldable pub use Collection.*
