-- ===== src/Processor/Plugins/Approve.antt =====
-- programs/mpl-core/src/processor/approve_plugin_authority.rs
use mpl_core.Prelude.{not, none}
use mpl_core.Error.{
  Result, ok, custom, guard, ok_or, invalid_plugin, plugins_not_initialized, ◌>>=◌, ◌>>◌,
}
use mpl_core.State.{AccountInfo, Authority}
use mpl_core.Plugins.{PluginType, plugin_type_eq}
use mpl_core.Host.{Host}
use mpl_core.Loading.{
  SolanaAccount, asset_account, collection_account, fetch_core_data, fetch_wrapped_plugin,
}
use mpl_core.Lifecycle.{check_approve_plugin_authority}
use mpl_core.Core.Asset as Asset
use mpl_core.Core.Collection as Collection
use mpl_core.Internal.Dispatch as Internal
use mpl_core.Permissions.Asset.{AssetEvent, validate_asset_permissions}
use mpl_core.Permissions.Collection.{CollectionEvent, validate_collection_permissions}
use mpl_core.Storage.Accounts.{Accounts}
use mpl_core.Storage.Plugins.{approve_authority_on_plugin}
use mpl_core.Processor.Plugins.Guards.{
  PluginAccounts, check_accounts, check_uncompressed, increment_seq_and_save, asset_request,
  collection_request,
}

module _ ⦃host : Host⦄ where
  unfoldable pub approve_event : AssetEvent
  approve_event = record {
    asset_check_fp = Asset.check_core;
    collection_check_fp = Collection.check_core;
    plugin_check_fp = check_approve_plugin_authority;
    asset_validate_fp = Asset.validate_plugin_authority;
    collection_validate_fp = Collection.validate_plugin;
    plugin_validate_fp = Internal.validate_approve_plugin_authority;
    external_validate_fp = none;
    hookable_lifecycle_event = none;
  }

  unfoldable pub approve_collection_event : CollectionEvent
  approve_collection_event = record {
    collection_check_fp = Collection.check_core;
    plugin_check_fp = check_approve_plugin_authority;
    collection_validate_fp = Collection.validate_plugin;
    plugin_validate_fp = Internal.validate_approve_plugin_authority;
    external_validate_fp = none;
    hookable_lifecycle_event = none;
  }

  -- `process_approve_plugin_authority`
  unfoldable pub process_approve_plugin_authority :
      {T : Type 0}
      → SolanaAccount T
      → AccountInfo
      → PluginType
      → Authority
      → Accounts
      → Result Accounts
  process_approve_plugin_authority trait system_program t new_authority accounts = do
    core ← fetch_core_data trait accounts.account
    header ← ok_or core.1 (custom plugins_not_initialized)
    registry ← ok_or core.2 (custom plugins_not_initialized)
    stored ←
        approve_authority_on_plugin t new_authority system_program
          (record { header = header; registry = registry; accounts = accounts })
    ok stored.accounts

  -- `approve_plugin_authority`
  unfoldable pub approve_plugin_authority :
      PluginAccounts → PluginType → Authority → Result Accounts
  approve_plugin_authority ctx t new_authority = do
    authority ← check_accounts ctx
    check_uncompressed ctx.target
    guard (not (plugin_type_eq t PluginType.groups)) (custom invalid_plugin)
    found ← fetch_wrapped_plugin asset_account ctx.target none t
    let (plugin_authority, plugin) = found
    core ←
        validate_asset_permissions approve_event
          (asset_request ctx authority plugin plugin_authority)
    account ← increment_seq_and_save core.0 ctx.target
    process_approve_plugin_authority asset_account ctx.system_program t new_authority
        (record { account = account; payer = ctx.payer })

  -- `approve_collection_plugin_authority`
  unfoldable pub approve_collection_plugin_authority :
      PluginAccounts → PluginType → Authority → Result Accounts
  approve_collection_plugin_authority ctx t new_authority = do
    authority ← check_accounts ctx
    guard (not (plugin_type_eq t PluginType.groups)) (custom invalid_plugin)
    found ← fetch_wrapped_plugin collection_account ctx.target none t
    let (plugin_authority, plugin) = found
    validate_collection_permissions approve_collection_event
          (collection_request ctx authority plugin plugin_authority)
        >>= λ _. ok tt
    process_approve_plugin_authority collection_account ctx.system_program t new_authority
        (record { account = ctx.target; payer = ctx.payer })
