-- ===== src/Processor/Plugins/Remove.antt =====
-- programs/mpl-core/src/processor/remove_plugin.rs
use mpl_core.Prelude.{not, is_some, ◌&&◌, none, some}
use mpl_core.Error.{Result, ok, custom, guard, invalid_plugin, plugin_not_found, ◌>>=◌, ◌>>◌}
use mpl_core.State.{AccountInfo, Authority}
use mpl_core.Plugins.{Plugin, PluginType, plugin_type_eq}
use mpl_core.Host.{Host}
use mpl_core.Loading.{
  SolanaAccount, asset_account, collection_account, fetch_core_data, fetch_wrapped_plugin,
}
use mpl_core.Lifecycle.{check_remove_plugin}
use mpl_core.Core.Asset as Asset
use mpl_core.Core.Collection as Collection
use mpl_core.Internal.Dispatch as Internal
use mpl_core.Permissions.Asset.{AssetEvent, validate_asset_permissions}
use mpl_core.Permissions.Collection.{CollectionEvent, validate_collection_permissions}
use mpl_core.Storage.Accounts.{Accounts}
use mpl_core.Storage.Plugins.{delete_plugin}
use mpl_core.Processor.Plugins.Guards.{
  PluginAccounts, check_accounts, check_uncompressed, increment_seq_and_save, with_next_seq,
  asset_request, collection_request,
}

module _ ⦃host : Host⦄ where
  unfoldable pub remove_event : AssetEvent
  remove_event = record {
    asset_check_fp = Asset.check_core;
    collection_check_fp = Collection.check_core;
    plugin_check_fp = check_remove_plugin;
    asset_validate_fp = Asset.validate_change_plugin;
    collection_validate_fp = Collection.validate_plugin;
    plugin_validate_fp = Internal.validate_remove_plugin;
    external_validate_fp = none;
    hookable_lifecycle_event = none;
  }

  unfoldable pub remove_collection_event : CollectionEvent
  remove_collection_event = record {
    collection_check_fp = Collection.check_core;
    plugin_check_fp = check_remove_plugin;
    collection_validate_fp = Collection.validate_plugin;
    plugin_validate_fp = Internal.validate_remove_plugin;
    external_validate_fp = none;
    hookable_lifecycle_event = none;
  }

  -- The core data of an account with plugins, and the plugin to remove with its authority.
  abbrev pub plugin_to_remove :
      {T : Type 0} → SolanaAccount T → AccountInfo → PluginType → Result (T × Authority × Plugin)
  plugin_to_remove trait account t = do
    core ← fetch_core_data trait account
    guard (is_some core.1 && is_some core.2) (custom plugin_not_found)
    found ← fetch_wrapped_plugin trait account (some core.0) t
    ok (core.0, found.0, found.1)

  -- `remove_plugin`
  unfoldable pub remove_plugin : PluginAccounts → PluginType → Result Accounts
  remove_plugin ctx t = do
    authority ← check_accounts ctx
    check_uncompressed ctx.target
    guard (not (plugin_type_eq t PluginType.groups)) (custom invalid_plugin)
    found ← plugin_to_remove asset_account ctx.target t
    let (asset, plugin_authority, plugin) = found
    validate_asset_permissions remove_event (asset_request ctx authority plugin plugin_authority)
        >>= λ _. ok tt
    account ← increment_seq_and_save asset ctx.target
    delete_plugin asset_account t (with_next_seq asset) ctx.system_program
        (record { account = account; payer = ctx.payer })

  -- `remove_collection_plugin`
  unfoldable pub remove_collection_plugin : PluginAccounts → PluginType → Result Accounts
  remove_collection_plugin ctx t = do
    authority ← check_accounts ctx
    guard (not (plugin_type_eq t PluginType.groups)) (custom invalid_plugin)
    found ← plugin_to_remove collection_account ctx.target t
    let (collection, plugin_authority, plugin) = found
    validate_collection_permissions remove_collection_event
          (collection_request ctx authority plugin plugin_authority)
        >>= λ _. ok tt
    delete_plugin collection_account t collection ctx.system_program
        (record { account = ctx.target; payer = ctx.payer })
