-- ===== src/Internal/Permanent.antt =====
-- programs/mpl-core/src/plugins/internal/permanent.
pub mod Freezes
pub mod Delegates
pub mod Edition
pub mod BubblegumV2
