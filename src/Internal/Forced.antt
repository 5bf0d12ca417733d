-- ===== src/Internal/Forced.antt =====
-- programs/mpl-core/src/plugins/lifecycle.rs and internal: which plugins can force an event through,
-- and which freeze it.
use mpl_core.Prelude.{◌≡◌, ◌≢◌, true, arith}
use mpl_core.Error.{ok}
use mpl_core.Plugins.{Plugin}
use mpl_core.Host.{Host}
use mpl_core.Lifecycle.{PluginValidationContext, force_approved, is_resolved}
use mpl_core.Internal.OwnerManaged.FreezeDelegate as FreezeDelegate
use mpl_core.Internal.OwnerManaged.FreezeExecute as FreezeExecute
use mpl_core.Internal.OwnerManaged.Delegates as OwnerDelegates
use mpl_core.Internal.OwnerManaged.Autograph as Autograph
use mpl_core.Internal.Permanent.Freezes as Freezes
use mpl_core.Internal.Permanent.Delegates as PermanentDelegates
use mpl_core.Internal.Permanent.Edition as Edition
use mpl_core.Internal.Permanent.BubblegumV2 as BubblegumV2
use mpl_core.Internal.AuthorityManaged.Blockers as Blockers
use mpl_core.Internal.AuthorityManaged.Groups as Groups
use mpl_core.Internal.AuthorityManaged.Royalties as Royalties
use mpl_core.Internal.AuthorityManaged.UpdateDelegate as UpdateDelegate
use mpl_core.Internal.AuthorityManaged.VerifiedCreators as VerifiedCreators
use mpl_core.Internal.Dispatch.{inner, validate_transfer, validate_burn, validate_execute}

module _ ⦃host : Host⦄ where
  -- All that `inner` sends an event to.
  abbrev plugins : Unit {0}
  unfolding inner Royalties.validation FreezeDelegate.validation
      OwnerDelegates.burn_delegate_validation OwnerDelegates.transfer_delegate_validation
      UpdateDelegate.validation Freezes.freeze_delegate_validation Blockers.passive_validation
      PermanentDelegates.transfer_delegate_validation PermanentDelegates.burn_delegate_validation
      Edition.validation Blockers.add_blocker_validation Blockers.immutable_metadata_validation
      VerifiedCreators.validation Autograph.validation BubblegumV2.validation
      FreezeExecute.validation Freezes.freeze_execute_validation Groups.validation
  plugins = tt

  -- Only a permanent transfer delegate whose authority the signer holds forces a transfer.
  pub validate_transfer_forced :
      (plugin : Plugin) (ctx : PluginValidationContext)
      → validate_transfer plugin ctx ≡ ok force_approved
      → (plugin ≡ Plugin.permanent_transfer_delegate) × (is_resolved ctx ≡ true)
  unfolding plugins validate_transfer
  validate_transfer_forced (Plugin.royalties p) ctx h = ground arith
  validate_transfer_forced _ ctx h = ground arith

  -- Only a permanent burn delegate whose authority the signer holds forces a burn.
  pub validate_burn_forced :
      (plugin : Plugin) (ctx : PluginValidationContext)
      → validate_burn plugin ctx ≡ ok force_approved
      → (plugin ≡ Plugin.permanent_burn_delegate) × (is_resolved ctx ≡ true)
  unfolding plugins validate_burn
  validate_burn_forced (Plugin.royalties p) ctx h = ground arith
  validate_burn_forced _ ctx h = ground arith

  -- No plugin forces an execution.
  pub validate_execute_forced :
      (plugin : Plugin) (ctx : PluginValidationContext)
      → validate_execute plugin ctx ≢ ok force_approved
  unfolding plugins validate_execute
  validate_execute_forced plugin ctx h = ground arith
