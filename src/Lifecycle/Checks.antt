-- ===== src/Lifecycle/Checks.antt =====
-- programs/mpl-core/src/plugins/lifecycle.rs and plugins/mod.rs: which plugin types take part in
-- which lifecycle event (`PluginType::check_*`), and who manages them.
use mpl_core.State.{Authority}
use mpl_core.Plugins.{Plugin, plugin_type, PluginType}
use mpl_core.Host.{Host}
use mpl_core.Lifecycle.Types.{CheckResult, can_approve, can_reject}

-- `PluginType::manager`
abbrev pub manager : ⦃host : Host⦄ → PluginType → Authority
manager PluginType.freeze_delegate = Authority.owner
manager PluginType.burn_delegate = Authority.owner
manager PluginType.transfer_delegate = Authority.owner
manager PluginType.autograph = Authority.owner
manager ⦃host⦄ PluginType.bubblegum_v2 = Authority.address host.bubblegum_id
manager PluginType.freeze_execute = Authority.owner
manager _ = Authority.update_authority

-- `Plugin::manager`
abbrev pub plugin_manager : ⦃host : Host⦄ → Plugin → Authority
plugin_manager plugin = manager (plugin_type plugin)

unfoldable pub check_add_plugin : PluginType → CheckResult
check_add_plugin PluginType.add_blocker = can_reject
check_add_plugin PluginType.royalties = can_reject
check_add_plugin PluginType.update_delegate = can_approve
check_add_plugin PluginType.permanent_freeze_delegate = can_reject
check_add_plugin PluginType.permanent_transfer_delegate = can_reject
check_add_plugin PluginType.permanent_burn_delegate = can_reject
check_add_plugin PluginType.edition = can_reject
check_add_plugin PluginType.autograph = can_reject
check_add_plugin PluginType.verified_creators = can_reject
check_add_plugin PluginType.bubblegum_v2 = can_reject
check_add_plugin PluginType.permanent_freeze_execute = can_reject
check_add_plugin _ = CheckResult.none

unfoldable pub check_remove_plugin : PluginType → CheckResult
check_remove_plugin PluginType.update_delegate = can_approve
check_remove_plugin _ = can_reject

unfoldable pub check_update_plugin : PluginType → CheckResult
check_update_plugin _ = can_approve

unfoldable pub check_approve_plugin_authority : PluginType → CheckResult
check_approve_plugin_authority _ = can_approve

unfoldable pub check_revoke_plugin_authority : PluginType → CheckResult
check_revoke_plugin_authority _ = can_approve

unfoldable pub check_create : PluginType → CheckResult
check_create PluginType.royalties = can_reject
check_create PluginType.update_delegate = can_approve
check_create PluginType.autograph = can_reject
check_create PluginType.verified_creators = can_reject
check_create _ = CheckResult.none

unfoldable pub check_update : PluginType → CheckResult
check_update PluginType.immutable_metadata = can_reject
check_update PluginType.update_delegate = can_approve
check_update _ = CheckResult.none

unfoldable pub check_burn : PluginType → CheckResult
check_burn PluginType.freeze_delegate = can_reject
check_burn PluginType.burn_delegate = can_approve
check_burn PluginType.permanent_freeze_delegate = can_reject
check_burn PluginType.permanent_burn_delegate = can_approve
check_burn PluginType.groups = can_reject
check_burn _ = CheckResult.none

unfoldable pub check_transfer : PluginType → CheckResult
check_transfer PluginType.royalties = can_reject
check_transfer PluginType.freeze_delegate = can_reject
check_transfer PluginType.transfer_delegate = can_approve
check_transfer PluginType.permanent_freeze_delegate = can_reject
check_transfer PluginType.permanent_transfer_delegate = can_approve
check_transfer _ = CheckResult.none

-- Also `check_decompress`, and the checks of removing and updating an external plugin adapter.
unfoldable pub check_compress : PluginType → CheckResult
check_compress _ = CheckResult.none

unfoldable pub check_execute : PluginType → CheckResult
check_execute PluginType.freeze_execute = can_reject
check_execute PluginType.permanent_freeze_execute = can_reject
check_execute _ = CheckResult.none

unfoldable pub check_add_external_plugin_adapter : PluginType → CheckResult
check_add_external_plugin_adapter PluginType.bubblegum_v2 = can_reject
check_add_external_plugin_adapter _ = CheckResult.none
