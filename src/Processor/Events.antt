-- ===== src/Processor/Events.antt =====
-- programs/mpl-core/src/processor/{transfer,burn,execute}.rs: what each of the instructions passes to
-- `validate_asset_permissions`.
use mpl_core.Prelude.{some}
use mpl_core.Plugins.{PluginType}
use mpl_core.External.{HookableLifecycleEvent}
use mpl_core.Host.{Host}
use mpl_core.Lifecycle.{CheckResult, check_transfer, check_burn, check_execute}
use mpl_core.Lifecycle.Validate.{PluginFn, ExternalFn}
use mpl_core.Core.Asset as Asset
use mpl_core.Core.Collection as Collection
use mpl_core.Internal.Dispatch as Internal
use mpl_core.Adapters.Dispatch as Adapters
use mpl_core.Permissions.Asset.{AssetEvent}
use mpl_core.Permissions.Collection.{CollectionEvent}

module _ ⦃host : Host⦄ where
  -- The three events that the owner approves and the collection does not: the parts that differ.
  abbrev pub owner_event :
      CheckResult
      → (PluginType → CheckResult)
      → PluginFn
      → ExternalFn
      → HookableLifecycleEvent
      → AssetEvent
  owner_event collection_check plugin_check validate_plugin validate_external event = record {
    asset_check_fp = Asset.check_core;
    collection_check_fp = collection_check;
    plugin_check_fp = plugin_check;
    asset_validate_fp = Asset.validate_owner;
    collection_validate_fp = Collection.validate_passive;
    plugin_validate_fp = validate_plugin;
    external_validate_fp = some validate_external;
    hookable_lifecycle_event = some event;
  }

  unfoldable pub transfer_event : AssetEvent
  transfer_event =
      owner_event Collection.check_passive check_transfer Internal.validate_transfer
        Adapters.validate_transfer HookableLifecycleEvent.transfer

  unfoldable pub burn_event : AssetEvent
  burn_event =
      owner_event Collection.check_passive check_burn Internal.validate_burn Adapters.validate_burn
        HookableLifecycleEvent.burn

  unfoldable pub execute_event : AssetEvent
  execute_event =
      owner_event Collection.check_core check_execute Internal.validate_execute
        Adapters.validate_execute HookableLifecycleEvent.execute

  -- The burn of a collection: the collection's part is that of an update.
  unfoldable pub burn_collection_event : CollectionEvent
  burn_collection_event = record {
    collection_check_fp = Collection.check_core;
    plugin_check_fp = check_burn;
    collection_validate_fp = Collection.validate_authority;
    plugin_validate_fp = Internal.validate_burn;
    external_validate_fp = some Adapters.validate_burn;
    hookable_lifecycle_event = some HookableLifecycleEvent.burn;
  }
