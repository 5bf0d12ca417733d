-- ===== src/Tests/Instructions.antt =====
-- Instructions on the plugins of the stored asset.
use mpl_core.Prelude.{refl, [], ◌∷◌, arith, List, none}
use mpl_core.State.{Authority, asset_len}
use mpl_core.Plugins.{Plugin, plugin_len}
use mpl_core.Registry.Evaluate.{check_registry, check_adapter_registry}
use mpl_core.Loading.{load, load_key, load_plugin, fetch_core_data, fetch_wrapped_plugin}
use mpl_core.Lifecycle.{tally, check_add_plugin, check_remove_plugin}
use mpl_core.Lifecycle.Validate.{
  ask, validate_plugin_checks, validate_external_plugin_adapter_checks, external_loop,
}
use mpl_core.Permissions.Resolve.{resolve_pubkey_to_authorities, resolve_authority}
use mpl_core.Permissions.Asset.{validate_asset_permissions}
use mpl_core.Internal.Dispatch.{inner, validate_add_plugin, validate_remove_plugin}
use mpl_core.Internal.OwnerManaged.FreezeDelegate as FreezeDelegate
use mpl_core.Internal.OwnerManaged.Delegates as Delegates
use mpl_core.Core.Asset.{validate_change_plugin}
use mpl_core.Storage.Accounts.{Accounts, resize_or_reallocate_account, move_rent, write_bytes}
use mpl_core.Storage.Layout.{Item}
use mpl_core.Storage.Offsets.{bump_offsets, shift}
use mpl_core.Storage.Meta.{create_meta_idempotent}
use mpl_core.Storage.Plugins.{initialize_plugin, delete_plugin}
use mpl_core.Storage.Runtime.{IsRefundable, refunded}
use mpl_core.Processor.Plugins.Guards.{
  PluginAccounts, check_accounts, check_uncompressed, increment_seq_and_save,
}
use mpl_core.Processor.Plugins.Add.{add_plugin, add_event, process_add_plugin}
use mpl_core.Processor.Plugins.Added.{IsAdded, add_plugin-IsAdded}
use mpl_core.Processor.Plugins.Remove.{remove_plugin, remove_event}
use mpl_core.Processor.Plugins.Removed.{IsRemoved, remove_plugin-IsRemoved}
use mpl_core.Tests.Accounts.{asset, signer}
use mpl_core.Tests.Stored.{
  storing_host, storing_runtime, held, held-IsLaidOut, freeze, burn, freeze-Coded, burn-Coded,
  none-Coded, both-Coded, burn_delegate-IsCodedPlugin, storing, size,
}

abbrev one : List Item
one = freeze Authority.owner ∷ []

abbrev both : List Item
both = freeze Authority.owner ∷ burn ∷ []

-- The owner pays and acts.
abbrev by_owner : List Item → PluginAccounts
by_owner items = record {
  accounts = [];
  target = (held items).account;
  collection = none;
  payer = (held items).payer;
  authority = none;
  system_program = signer 0;
  log_wrapper = none;
}

-- All that a run goes through.
abbrev runs : Unit {0}
unfolding asset_len plugin_len check_registry check_adapter_registry load load_key load_plugin
    fetch_core_data fetch_wrapped_plugin tally check_add_plugin check_remove_plugin ask
    validate_plugin_checks validate_external_plugin_adapter_checks external_loop
    resolve_pubkey_to_authorities resolve_authority validate_asset_permissions inner
    validate_add_plugin validate_remove_plugin FreezeDelegate.validation
    Delegates.burn_delegate_validation validate_change_plugin resize_or_reallocate_account move_rent
    write_bytes bump_offsets shift create_meta_idempotent initialize_plugin delete_plugin
    check_accounts check_uncompressed increment_seq_and_save add_plugin add_event process_add_plugin
    remove_plugin remove_event
runs = tt

abbrev added : Accounts
added = record {
  account = record (held both).account { lamports = 1011 };
  payer = record (held both).payer { lamports = 989 };
}

add_plugin-IsAdded_example :
    IsAdded ⦃host = storing_host⦄ (by_owner one) Plugin.burn_delegate none asset one added
unfolding runs
add_plugin-IsAdded_example =
    add_plugin-IsAdded ⦃host = storing_host⦄ (by_owner one) Plugin.burn_delegate none asset one
      added storing_runtime (held-IsLaidOut one) freeze-Coded freeze-Coded both-Coded
      burn_delegate-IsCodedPlugin (omega arith) refl

abbrev lone : List Item
lone = burn ∷ []

abbrev removed : Accounts
removed =
    storing [] (refunded ⦃host = storing_host⦄ storing_runtime (signer 0) (size []) (held lone))

refundable : IsRefundable ⦃host = storing_host⦄ storing_runtime (signer 0) (size []) (held lone)
unfolding asset_len
refundable = record {
  rent_falls = omega arith;
  payer_room = omega arith;
  account_pays = omega arith;
}

remove_plugin-IsRemoved_example :
    IsRemoved ⦃host = storing_host⦄ storing_runtime
      (by_owner lone)
      asset
      []
      []
      Authority.owner
      Plugin.burn_delegate
      removed
unfolding runs
remove_plugin-IsRemoved_example =
    remove_plugin-IsRemoved ⦃host = storing_host⦄ storing_runtime (by_owner lone) asset [] []
      Authority.owner Plugin.burn_delegate removed (held-IsLaidOut lone) burn-Coded
      burn_delegate-IsCodedPlugin tt burn-Coded none-Coded refl (omega arith) refundable refl
