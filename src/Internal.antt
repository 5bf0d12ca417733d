-- ===== src/Internal.antt =====
-- programs/mpl-core/src/plugins/internal: how each plugin of the program answers.
pub mod OwnerManaged
pub mod Permanent
pub mod AuthorityManaged
pub mod Dispatch
pub mod Forced
pub mod Freezes
pub mod Permanence
