-- ===== src/Internal/Dispatch.antt =====
-- programs/mpl-core/src/plugins/mod.rs and lifecycle.rs: `Plugin::inner`, and `Plugin::validate_*`,
-- which send an event to the plugin and add the rules that hold for every plugin.
use mpl_core.Prelude.{Bool, false, none, some, ◌&&◌, not, if◌then◌else◌}
use mpl_core.Error.{
  Result, ok, custom, fail, ok_or, ◌>>=◌, invalid_plugin, invalid_authority, cannot_redelegate,
}
use mpl_core.State.{Authority, authority_eq}
use mpl_core.Plugins.{Plugin, plugin_type, plugin_type_eq, plugin_eq}
use mpl_core.Host.{Host}
use mpl_core.Lifecycle.{
  PluginValidation, PluginValidationContext, ValidationResult, approved, rejected, pass,
  force_approved, approve, reject, is_resolved, contains_authority, plugin_manager,
}
use mpl_core.Internal.OwnerManaged.FreezeDelegate as FreezeDelegate
use mpl_core.Internal.OwnerManaged.FreezeExecute as FreezeExecute
use mpl_core.Internal.OwnerManaged.Delegates as OwnerDelegates
use mpl_core.Internal.OwnerManaged.Autograph as Autograph
use mpl_core.Internal.Permanent.Freezes as Freezes
use mpl_core.Internal.Permanent.Delegates as PermanentDelegates
use mpl_core.Internal.Permanent.Edition as Edition
use mpl_core.Internal.Permanent.BubblegumV2 as BubblegumV2
use mpl_core.Internal.AuthorityManaged.Blockers as Blockers
use mpl_core.Internal.AuthorityManaged.Groups as Groups
use mpl_core.Internal.AuthorityManaged.Royalties as Royalties
use mpl_core.Internal.AuthorityManaged.UpdateDelegate as UpdateDelegate
use mpl_core.Internal.AuthorityManaged.VerifiedCreators as VerifiedCreators

-- The target plugin is of this plugin's type.
abbrev pub targets_self : Plugin → PluginValidationContext → Bool
targets_self plugin ctx = elim ctx.target_plugin [
  | some target ↦ plugin_type_eq (plugin_type target) (plugin_type plugin)
  | none ↦ false
]

-- How `validate_update_plugin` joins its own answer with the plugin's.
abbrev pub join_results : ValidationResult → ValidationResult → ValidationResult
join_results approved approved = approved
join_results approved rejected = rejected
join_results rejected approved = rejected
join_results rejected rejected = rejected
join_results pass result = result
join_results force_approved _ = force_approved
join_results base pass = base
join_results _ force_approved = force_approved

module _ ⦃host : Host⦄ where
  -- `Plugin::inner`
  unfoldable pub inner : Plugin → PluginValidation
  inner (Plugin.royalties p) = Royalties.validation p
  inner (Plugin.freeze_delegate p) = FreezeDelegate.validation p
  inner Plugin.burn_delegate = OwnerDelegates.burn_delegate_validation
  inner Plugin.transfer_delegate = OwnerDelegates.transfer_delegate_validation
  inner (Plugin.update_delegate p) = UpdateDelegate.validation p
  inner (Plugin.permanent_freeze_delegate p) = Freezes.freeze_delegate_validation p
  inner (Plugin.attributes _) = Blockers.passive_validation
  inner Plugin.permanent_transfer_delegate = PermanentDelegates.transfer_delegate_validation
  inner Plugin.permanent_burn_delegate = PermanentDelegates.burn_delegate_validation
  inner (Plugin.edition p) = Edition.validation p
  inner (Plugin.master_edition _) = Blockers.passive_validation
  inner Plugin.add_blocker = Blockers.add_blocker_validation
  inner Plugin.immutable_metadata = Blockers.immutable_metadata_validation
  inner (Plugin.verified_creators p) = VerifiedCreators.validation p
  inner (Plugin.autograph p) = Autograph.validation p
  inner Plugin.bubblegum_v2 = BubblegumV2.validation
  inner (Plugin.freeze_execute p) = FreezeExecute.validation p
  inner (Plugin.permanent_freeze_execute p) = Freezes.freeze_execute_validation p
  inner (Plugin.groups p) = Groups.validation p

  -- `Plugin::validate_add_plugin`, and the others that only pass the event on
  unfoldable pub validate_add_plugin : Plugin → PluginValidationContext → Result ValidationResult
  validate_add_plugin plugin = (inner plugin).validate_add_plugin

  unfoldable pub validate_create : Plugin → PluginValidationContext → Result ValidationResult
  validate_create plugin = (inner plugin).validate_create

  unfoldable pub validate_update : Plugin → PluginValidationContext → Result ValidationResult
  validate_update plugin = (inner plugin).validate_update

  unfoldable pub validate_burn : Plugin → PluginValidationContext → Result ValidationResult
  validate_burn plugin = (inner plugin).validate_burn

  unfoldable pub validate_transfer : Plugin → PluginValidationContext → Result ValidationResult
  validate_transfer plugin = (inner plugin).validate_transfer

  unfoldable pub validate_execute : Plugin → PluginValidationContext → Result ValidationResult
  validate_execute plugin = (inner plugin).validate_execute

  unfoldable pub validate_compress : Plugin → PluginValidationContext → Result ValidationResult
  validate_compress plugin = (inner plugin).validate_compress

  unfoldable pub validate_decompress : Plugin → PluginValidationContext → Result ValidationResult
  validate_decompress plugin = (inner plugin).validate_decompress

  unfoldable pub validate_add_external_plugin_adapter :
      Plugin → PluginValidationContext → Result ValidationResult
  validate_add_external_plugin_adapter plugin = (inner plugin).validate_add_external_plugin_adapter

  unfoldable pub validate_remove_external_plugin_adapter :
      Plugin → PluginValidationContext → Result ValidationResult
  validate_remove_external_plugin_adapter plugin =
      (inner plugin).validate_remove_external_plugin_adapter

  -- `Plugin::validate_remove_plugin`: no plugin of authority `None` is removed.
  unfoldable pub validate_remove_plugin : Plugin → PluginValidationContext → Result ValidationResult
  validate_remove_plugin plugin ctx =
      if authority_eq ctx.self_authority Authority.none && targets_self plugin ctx
      then reject
      else (inner plugin).validate_remove_plugin ctx

  -- `Plugin::validate_approve_plugin_authority`: what is delegated is not delegated again.
  unfoldable pub validate_approve_plugin_authority :
      Plugin → PluginValidationContext → Result ValidationResult
  validate_approve_plugin_authority plugin ctx = do
    target ← ok_or ctx.target_plugin (custom invalid_plugin)
    if plugin_eq target plugin && not (authority_eq (plugin_manager target) ctx.self_authority)
        then fail cannot_redelegate
        else (inner plugin).validate_approve_plugin_authority ctx

  -- `Plugin::validate_revoke_plugin_authority`
  unfoldable pub validate_revoke_plugin_authority :
      Plugin → PluginValidationContext → Result ValidationResult
  validate_revoke_plugin_authority plugin ctx = do
    target ← ok_or ctx.target_plugin (custom invalid_plugin)
    if authority_eq ctx.self_authority Authority.none && targets_self plugin ctx
        then reject
        else (do
          result ← (inner plugin).validate_revoke_plugin_authority ctx
          elim result [
            | pass ↦ if targets_self plugin ctx && is_resolved ctx then approve else ok pass
            | other ↦ ok other
          ])

  -- `Plugin::validate_update_plugin`
  unfoldable pub validate_update_plugin : Plugin → PluginValidationContext → Result ValidationResult
  validate_update_plugin plugin ctx = do
    authorities ← ok_or ctx.resolved_authorities (custom invalid_authority)
    let base =
        if contains_authority authorities ctx.self_authority && targets_self plugin ctx
        then approved
        else pass
    result ← (inner plugin).validate_update_plugin ctx
    ok (join_results base result)
