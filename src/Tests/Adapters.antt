-- ===== src/Tests/Adapters.antt =====
-- The storage of external adapters at concrete accounts.
use mpl_core.Prelude.{length, refl, arith, true, ◌≡◌, [], ◌∷◌}
use mpl_core.Error.{◌>>=◌, ok}
use mpl_core.State.{asset_len}
use mpl_core.External.{ExternalPluginAdapterKey}
use mpl_core.Registry.Evaluate.{from_record}
use mpl_core.Loading.{asset_account}
use mpl_core.Storage.Accounts.{resize_or_reallocate_account, move_rent, write_bytes}
use mpl_core.Storage.Runtime.{refunded}
use mpl_core.Storage.Layout.{layout, with_items}
use mpl_core.Storage.AdapterKeys.{check_plugin_key}
use mpl_core.Storage.Adapters.{delete_external_plugin_adapter, initialize_external_plugin_adapter}
use mpl_core.Storage.NewAdapters.{check_plugin_key-from_record}
use mpl_core.Storage.AddedAdapters.{
  IsAdapterAdded, initialize_external_plugin_adapter-appends,
  initialize_external_plugin_adapter-IsAdapterAdded,
}
use mpl_core.Storage.RemovedAdapters.{delete_external_plugin_adapter-removes}
use mpl_core.Tests.Accounts.{asset, signer}
use mpl_core.Tests.Stored.{burn}
use mpl_core.Tests.Adapting.{
  identity_record, identity, adapting_host, adapting_runtime, held, adapted, adapted-Coded,
  burn-Coded, left, info, appended, extended, extended-Coded, before, grown, records_sized,
  keys_differ, after,
}

check_plugin_key-from_record_example :
    check_plugin_key ⦃host = adapting_host⦄ identity_record ExternalPluginAdapterKey.agent_identity
      (held adapted).account
    ≡ ok true
unfolding from_record
check_plugin_key-from_record_example =
    check_plugin_key-from_record ⦃host = adapting_host⦄ (held adapted).account identity_record
      ExternalPluginAdapterKey.agent_identity ExternalPluginAdapterKey.agent_identity refl

delete_external_plugin_adapter-removes_example :
    delete_external_plugin_adapter ⦃host = adapting_host⦄
      (asset_account ⦃host = adapting_host⦄)
      ExternalPluginAdapterKey.agent_identity
      asset
      (signer 0)
      (held adapted)
    ≡ ok (
        with_items ⦃host = adapting_host⦄
          (asset_account ⦃host = adapting_host⦄)
          asset
          (burn ∷ [])
          (refunded ⦃host = adapting_host⦄ adapting_runtime (signer 0) left (held adapted)))
unfolding asset_len
delete_external_plugin_adapter-removes_example =
    delete_external_plugin_adapter-removes ⦃host = adapting_host⦄ adapting_runtime
      (asset_account ⦃host = adapting_host⦄) asset [] (burn ∷ []) identity (signer 0) (held adapted)
      ExternalPluginAdapterKey.agent_identity (record { owned = refl; stored = refl }) adapted-Coded
      (record { reads_back = λ rest. refl; some_bytes = omega arith; record_sized = refl })
      burn-Coded tt check_plugin_key-from_record_example (omega arith)
      (record { rent_falls = omega arith; payer_room = omega arith; account_pays = omega arith })

initialize_external_plugin_adapter-appends_example :
    initialize_external_plugin_adapter ⦃host = adapting_host⦄ info 43 (signer 0) appended before ≡ (
      resize_or_reallocate_account ⦃host = adapting_host⦄
        (signer 0)
        (length
          (layout ⦃host = adapting_host⦄ (asset_account ⦃host = adapting_host⦄) asset extended))
        (held adapted)
      >>= λ resized. ok (grown resized))
unfolding asset_len
initialize_external_plugin_adapter-appends_example =
    initialize_external_plugin_adapter-appends ⦃host = adapting_host⦄ adapting_runtime
      (asset_account ⦃host = adapting_host⦄) asset adapted info appended (signer 0) (held adapted)
      (record { owned = refl; stored = refl }) adapted-Coded extended-Coded records_sized tt tt
      keys_differ (omega arith)

initialize_external_plugin_adapter-IsAdapterAdded_example :
    IsAdapterAdded ⦃host = adapting_host⦄ adapting_runtime
      (asset_account ⦃host = adapting_host⦄)
      asset
      adapted
      info
      appended
      (signer 0)
      (held adapted)
      after
unfolding initialize_external_plugin_adapter from_record resize_or_reallocate_account move_rent
    write_bytes asset_len
initialize_external_plugin_adapter-IsAdapterAdded_example =
    initialize_external_plugin_adapter-IsAdapterAdded ⦃host = adapting_host⦄ adapting_runtime
      (asset_account ⦃host = adapting_host⦄) asset adapted info appended (signer 0) (held adapted)
      (record { owned = refl; stored = refl }) adapted-Coded extended-Coded records_sized tt after
      (omega arith) refl
