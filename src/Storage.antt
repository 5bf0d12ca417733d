-- ===== src/Storage.antt =====
-- programs/mpl-core/src/plugins/utils.rs and utils/account.rs: storing plugins in an account.
pub mod Accounts
pub mod Offsets
pub mod Codec
pub mod Meta
pub mod Runtime
pub mod Plugins
pub mod Layout
pub mod Sizes
pub mod Moving
pub mod Removing
pub mod Closing
pub mod Reading
pub mod Fetching
pub mod Removed
pub mod Replacing
pub mod Authorities
pub mod Creating
pub mod Closed
pub mod LifecycleChecks
pub mod AdapterKeys
pub mod Adapters
pub mod NewAdapters
pub mod RemovedAdapters
pub mod NewItems
pub mod AddingAdapters
pub mod Adding
pub mod OtherKeys
pub mod AddedAdapters
pub mod Added
