-- ===== src/Permissions.antt =====
-- programs/mpl-core/src/utils/mod.rs: who may do what to an asset and to a collection.
pub mod Resolve
pub mod Resolved
pub mod Asset
pub mod Collection
pub mod Granted
pub mod CollectionGranted
pub mod Delegates
pub mod Unplugged
