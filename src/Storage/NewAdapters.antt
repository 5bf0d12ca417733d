-- ===== src/Storage/NewAdapters.antt =====
-- programs/mpl-core/src/plugins/utils.rs: an external plugin adapter's key, as `check_plugin_key` and
-- `ExternalPluginAdapterKey::from_record` read it.
use mpl_core.Prelude.{◌≡◌, refl, arith}
use mpl_core.Error.{ok}
use mpl_core.State.{AccountInfo}
use mpl_core.External.{ExternalPluginAdapterType, ExternalPluginAdapterKey}
use mpl_core.Registry.{ExternalRegistryRecord}
use mpl_core.Registry.Evaluate.{from_record}
use mpl_core.Host.{Host}
use mpl_core.Storage.AdapterKeys.{check_plugin_key, external_key_eq}

module _ ⦃host : Host⦄ where
  -- By the type of the record.
  check_plugin_key-of_type :
      (t : ExternalPluginAdapterType) (account : AccountInfo) (r : ExternalRegistryRecord)
      (k key : ExternalPluginAdapterKey)
      → r.plugin_type ≡ t
      → from_record account r ≡ ok k
      → check_plugin_key r key account ≡ ok (external_key_eq k key)
  unfolding from_record check_plugin_key
  check_plugin_key-of_type ExternalPluginAdapterType.lifecycle_hook account r k key same h =
      ground (arith, same, h)
  check_plugin_key-of_type ExternalPluginAdapterType.oracle account r k key same h =
      ground (arith, same, h)
  check_plugin_key-of_type ExternalPluginAdapterType.app_data account r k key same h =
      ground (arith, same, h)
  check_plugin_key-of_type ExternalPluginAdapterType.linked_lifecycle_hook account r k key same h =
      ground (arith, same, h)
  check_plugin_key-of_type ExternalPluginAdapterType.linked_app_data account r k key same h =
      ground (arith, same, h)
  check_plugin_key-of_type ExternalPluginAdapterType.data_section account r k key same h =
      ground (arith, same, h)
  check_plugin_key-of_type ExternalPluginAdapterType.agent_identity account r k key same h =
      ground (arith, same, h)

  -- Where the key of a record can be read, `check_plugin_key` answers whether it is the key asked for.
  pub check_plugin_key-from_record :
      (account : AccountInfo) (r : ExternalRegistryRecord) (k key : ExternalPluginAdapterKey)
      → from_record account r ≡ ok k
      → check_plugin_key r key account ≡ ok (external_key_eq k key)
  unfolding from_record check_plugin_key
  check_plugin_key-from_record account r k key h =
      check_plugin_key-of_type r.plugin_type account r k key refl h
