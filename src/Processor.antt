-- ===== src/Processor.antt =====
-- programs/mpl-core/src/processor: the instructions, as far as they ask for permission.
pub mod Events
pub mod Plugins
pub mod Frozen
pub mod Overrides
pub mod Freezing
pub mod Owner
