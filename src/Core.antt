-- ===== src/Core.antt =====
-- programs/mpl-core/src/state/asset.rs and collection.rs: what the asset and the collection
-- themselves answer to each lifecycle event.
pub mod Asset
pub mod Collection
