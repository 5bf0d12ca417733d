-- ===== src/Internal/OwnerManaged.antt =====
-- programs/mpl-core/src/plugins/internal/owner_managed.
pub mod FreezeDelegate
pub mod FreezeExecute
pub mod Delegates
pub mod Autograph
pub mod Signatures
