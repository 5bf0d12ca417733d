-- ===== src/Processor/Plugins/Add.antt =====
-- programs/mpl-core/src/processor/add_plugin.rs
use mpl_core.Prelude.{not, ◌||◌, Bool, true, false, Option, none, some}
use mpl_core.Error.{Result, ok, custom, guard, invalid_plugin, invalid_authority, ◌>>=◌, ◌>>◌}
use mpl_core.State.{AccountInfo, Key, asset_v1, collection_v1, Authority, authority_eq}
use mpl_core.Plugins.{Plugin, PluginType, plugin_type, plugin_type_eq}
use mpl_core.Host.{Host}
use mpl_core.Loading.{SolanaAccount, asset_account, collection_account}
use mpl_core.Lifecycle.{
  PluginValidationContext, ValidationResult, rejected, plugin_manager, check_add_plugin,
}
use mpl_core.Core.Asset as Asset
use mpl_core.Core.Collection as Collection
use mpl_core.Internal.Dispatch as Internal
use mpl_core.Permissions.Asset.{AssetEvent, validate_asset_permissions}
use mpl_core.Permissions.Collection.{CollectionEvent, validate_collection_permissions}
use mpl_core.Storage.Accounts.{Accounts}
use mpl_core.Storage.Meta.{create_meta_idempotent}
use mpl_core.Storage.Plugins.{initialize_plugin}
use mpl_core.Processor.Plugins.Guards.{
  PluginAccounts, check_accounts, check_uncompressed, increment_seq_and_save, asset_request,
  collection_request,
}

-- `init_authority.unwrap_or(plugin.manager())`
abbrev pub initial_authority : ⦃host : Host⦄ → Option Authority → Plugin → Authority
initial_authority none plugin = plugin_manager plugin
initial_authority (some authority) plugin = authority

-- `result == ValidationResult::Rejected`
abbrev pub is_rejected : ValidationResult → Bool
is_rejected rejected = true
is_rejected _ = false

module _ ⦃host : Host⦄ where
  unfoldable pub add_event : AssetEvent
  add_event = record {
    asset_check_fp = Asset.check_core;
    collection_check_fp = Collection.check_core;
    plugin_check_fp = check_add_plugin;
    asset_validate_fp = Asset.validate_change_plugin;
    collection_validate_fp = Collection.validate_plugin;
    plugin_validate_fp = Internal.validate_add_plugin;
    external_validate_fp = none;
    hookable_lifecycle_event = none;
  }

  unfoldable pub add_collection_event : CollectionEvent
  add_collection_event = record {
    collection_check_fp = Collection.check_core;
    plugin_check_fp = check_add_plugin;
    collection_validate_fp = Collection.validate_plugin;
    plugin_validate_fp = Internal.validate_add_plugin;
    external_validate_fp = none;
    hookable_lifecycle_event = none;
  }

  -- The context in which the plugin is asked about its own addition.
  abbrev pub own_context :
      PluginAccounts → Key → AccountInfo → Plugin → Authority → PluginValidationContext
  own_context ctx self_key authority plugin plugin_authority = record {
    accounts = ctx.accounts;
    asset_info = elim self_key [ asset_v1 ↦ some ctx.target | _ ↦ none ];
    collection_info = elim self_key [ asset_v1 ↦ ctx.collection | _ ↦ some ctx.target ];
    self_key = self_key;
    self_authority = plugin_authority;
    authority_info = authority;
    resolved_authorities = none;
    new_owner = none;
    new_asset_authority = none;
    new_collection_authority = none;
    target_plugin = some plugin;
    target_plugin_authority = some plugin_authority;
    target_external_plugin = none;
    target_external_plugin_authority = none;
  }

  -- The plugin does not reject its own addition.
  abbrev pub ask_own : PluginAccounts → Key → AccountInfo → Plugin → Authority → Result (Unit {0})
  ask_own ctx self_key authority plugin plugin_authority = do
    answer ←
        Internal.validate_add_plugin plugin
          (own_context ctx self_key authority plugin plugin_authority)
    guard (not (is_rejected answer)) (custom invalid_authority)

  -- `process_add_plugin`
  unfoldable pub process_add_plugin :
      {T : Type 0} → SolanaAccount T → AccountInfo → Plugin → Authority → Accounts → Result Accounts
  process_add_plugin trait system_program plugin authority accounts = do
    created ← create_meta_idempotent trait system_program accounts
    let (core, header_offset, meta) = created
    stored ← initialize_plugin plugin authority header_offset system_program meta
    ok stored.accounts

  -- `add_plugin`
  unfoldable pub add_plugin : PluginAccounts → Plugin → Option Authority → Result Accounts
  add_plugin ctx plugin init_authority = do
    authority ← check_accounts ctx
    check_uncompressed ctx.target
    guard
        (not (
          plugin_type_eq (plugin_type plugin) PluginType.master_edition
          || plugin_type_eq (plugin_type plugin) PluginType.groups))
        (custom invalid_plugin)
    let plugin_authority = initial_authority init_authority plugin
    ask_own ctx asset_v1 authority plugin plugin_authority
    core ←
        validate_asset_permissions add_event (asset_request ctx authority plugin plugin_authority)
    account ← increment_seq_and_save core.0 ctx.target
    process_add_plugin asset_account ctx.system_program plugin plugin_authority
        (record { account = account; payer = ctx.payer })

  -- `add_collection_plugin`
  unfoldable pub add_collection_plugin :
      PluginAccounts → Plugin → Option Authority → Result Accounts
  add_collection_plugin ctx plugin init_authority = do
    authority ← check_accounts ctx
    let plugin_authority = initial_authority init_authority plugin
    guard (not (plugin_type_eq (plugin_type plugin) PluginType.groups)) (custom invalid_plugin)
    ask_own ctx collection_v1 authority plugin plugin_authority
    guard (not (authority_eq (plugin_manager plugin) Authority.owner)) (custom invalid_authority)
    validate_collection_permissions add_collection_event
          (collection_request ctx authority plugin plugin_authority)
        >>= λ _. ok tt
    process_add_plugin collection_account ctx.system_program plugin plugin_authority
        (record { account = ctx.target; payer = ctx.payer })
