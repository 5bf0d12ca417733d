-- ===== src/Internal/AuthorityManaged.antt =====
-- programs/mpl-core/src/plugins/internal/authority_managed.
pub mod Blockers
pub mod Groups
pub mod Royalties
pub mod Shares
pub mod UpdateDelegate
pub mod VerifiedCreators
pub mod Verification
