-- ===== src/Tests/Events.antt =====
-- Transfers, burns and executions of the accounts.
use mpl_core.Prelude.{true, ℕ, ◌≡◌, ◌≢◌, refl, none, some, [], Option}
use mpl_core.Error.{ok, fail, invalid_authority}
use mpl_core.State.{AccountInfo, AssetV1, plugin_header_v1, asset_len, collection_len}
use mpl_core.Plugins.{Plugin}
use mpl_core.Registry.Evaluate.{check_registry, check_adapter_registry}
use mpl_core.Loading.{CoreData, load, load_key, load_plugin, fetch_core_data}
use mpl_core.Lifecycle.{tally, check_transfer, check_burn, check_execute}
use mpl_core.Lifecycle.Validate.{
  ask, validate_plugin_checks, validate_external_plugin_adapter_checks, external_loop,
}
use mpl_core.Permissions.Resolve.{
  resolve_pubkey_to_authorities, resolve_pubkey_to_authorities_collection,
}
use mpl_core.Permissions.Asset.{AssetRequest, validate_asset_permissions}
use mpl_core.Internal.Dispatch.{inner, validate_transfer, validate_burn, validate_execute}
use mpl_core.Internal.OwnerManaged.FreezeDelegate as FreezeDelegate
use mpl_core.Internal.OwnerManaged.FreezeExecute as FreezeExecute
use mpl_core.Internal.Permanent.Freezes as Freezes
use mpl_core.Internal.Permanent.Delegates as PermanentDelegates
use mpl_core.Core.Asset.{validate_owner}
use mpl_core.Adapters.Dispatch as Adapters
use mpl_core.External.{HookableLifecycleEvent}
use mpl_core.Permissions.Granted.{IsGranted, validate_asset_permissions-IsGranted}
use mpl_core.Processor.Owner.{unplugged_owner}
use mpl_core.Core.Collection.{check_passive, validate_authority, validate_passive}
use mpl_core.Processor.Events.{burn_collection_event, transfer_event, burn_event, execute_event}
use mpl_core.Processor.Freezing.{
  HasDelegate, transfer_frozen, burn_frozen, execute_frozen, transfer_collection_frozen,
}
use mpl_core.Permissions.Collection.{CollectionRequest, validate_collection_permissions}
use mpl_core.Permissions.CollectionGranted.{
  IsCollectionGranted, validate_collection_permissions-IsCollectionGranted,
}
use mpl_core.Tests.Accounts.{
  bare_collection, collection, asset, asset_of_collection, frozen_record, frozen_execute_record,
  registry, collection_frozen_record, registry_of_collection, test_host, frozen_asset, bare_asset,
  collection_asset, frozen_collection, signer,
}

abbrev request : AccountInfo → Option AccountInfo → ℕ → AssetRequest
request info collection key = record {
  accounts = [];
  authority_info = signer key;
  asset = info;
  collection = collection;
  new_owner = some (signer 10);
  new_authority = none;
  new_plugin = none;
  new_plugin_authority = none;
  new_external_plugin_adapter = none;
  new_external_plugin_adapter_authority = none;
}

abbrev frozen_core : CoreData AssetV1
frozen_core =
    (asset, some (record { key = plugin_header_v1; plugin_registry_offset = 45 }), some registry)

abbrev collection_core : CoreData AssetV1
collection_core = (asset_of_collection, none, none)

abbrev bare_core : CoreData AssetV1
bare_core = (asset, none, none)

-- All that a run goes through.
abbrev pub runs : Unit {0}
unfolding validate_asset_permissions load load_key load_plugin fetch_core_data
    resolve_pubkey_to_authorities check_registry check_adapter_registry tally ask
    validate_plugin_checks validate_external_plugin_adapter_checks external_loop transfer_event
    check_transfer validate_transfer validate_owner validate_passive inner FreezeDelegate.validation
    PermanentDelegates.transfer_delegate_validation burn_event execute_event check_burn
    check_execute validate_burn validate_execute FreezeExecute.validation
    Freezes.freeze_delegate_validation PermanentDelegates.burn_delegate_validation asset_len
    collection_len
runs = tt

-- The permanent transfer delegate moves the frozen asset.
transfer_frozen_example :
    HasDelegate Plugin.permanent_transfer_delegate check_transfer transfer_event
      (request frozen_asset none 9)
      frozen_core
unfolding runs
transfer_frozen_example =
    transfer_frozen (request frozen_asset none 9) frozen_core frozen_record
      (Plugin.freeze_delegate (record { frozen = true })) refl refl refl refl

burn_frozen_example :
    HasDelegate Plugin.permanent_burn_delegate check_burn burn_event
      (request frozen_asset none 9)
      frozen_core
unfolding runs
burn_frozen_example =
    burn_frozen (request frozen_asset none 9) frozen_core frozen_record
      (Plugin.freeze_delegate (record { frozen = true })) refl refl refl refl

-- Neither the owner nor anyone else executes from it.
execute_frozen_example :
    validate_asset_permissions execute_event (request frozen_asset none 7) ≢ ok frozen_core
unfolding runs
execute_frozen_example =
    execute_frozen (request frozen_asset none 7) frozen_core frozen_execute_record
      (Plugin.freeze_execute (record { frozen = true })) refl refl refl

transfer_collection_frozen_example :
    HasDelegate Plugin.permanent_transfer_delegate check_transfer transfer_event
      (request collection_asset (some frozen_collection) 9)
      collection_core
unfolding runs
transfer_collection_frozen_example =
    transfer_collection_frozen (request collection_asset (some frozen_collection) 9) collection_core
      (some registry_of_collection) collection_frozen_record frozen_collection
      (Plugin.permanent_freeze_delegate (record { frozen = true })) refl refl refl refl refl refl
      refl

unplugged_owner_example : (signer 7).key ≡ bare_core.0.owner
unfolding runs
unplugged_owner_example =
    unplugged_owner check_passive check_transfer validate_transfer Adapters.validate_transfer
      HookableLifecycleEvent.transfer (request bare_asset none 7) bare_core refl refl refl

validate_asset_permissions-IsGranted_example :
    IsGranted transfer_event (request frozen_asset none 9) frozen_core
unfolding runs
validate_asset_permissions-IsGranted_example =
    validate_asset_permissions-IsGranted transfer_event (request frozen_asset none 9) frozen_core
      refl

-- The owner is denied the transfer.
owner_denied :
    validate_asset_permissions transfer_event (request frozen_asset none 7) ≡ fail invalid_authority
unfolding runs
owner_denied = refl

abbrev collection_request : CollectionRequest
collection_request = record {
  accounts = [];
  authority_info = signer 8;
  collection = bare_collection;
  new_authority = none;
  new_plugin = none;
  new_plugin_authority = none;
  new_external_plugin_adapter = none;
  new_external_plugin_adapter_authority = none;
}

-- The update authority burns the collection.
validate_collection_permissions-IsCollectionGranted_example :
    IsCollectionGranted burn_collection_event collection_request (collection, none, none)
unfolding runs burn_collection_event validate_collection_permissions validate_authority
    resolve_pubkey_to_authorities_collection
validate_collection_permissions-IsCollectionGranted_example =
    validate_collection_permissions-IsCollectionGranted burn_collection_event collection_request
      (collection, none, none) refl
