-- ===== src/Processor/Plugins.antt =====
-- programs/mpl-core/src/processor: the instructions that add a plugin, remove it or hand it over.
pub mod Guards
pub mod Add
pub mod Remove
pub mod Approve
pub mod Sequence
pub mod Added
pub mod Removed
