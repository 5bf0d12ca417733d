-- ===== src/Storage/Adapters.antt =====
-- programs/mpl-core/src/plugins/utils.rs: adding, reading and deleting an external plugin adapter.
use mpl_core.Prelude.{
  ℕ, ◌==◌, not, Bool, true, false, List, [], ◌∷◌, ◌++◌, Option, none, some, length,
}
use Prim.Native.Nat.{zero, suc}
use mpl_core.Error.{
  Result, ok, custom, guard, ok_or, ◌>>=◌, ◌>>◌, borsh_io_error, external_plugin_adapter_not_found,
  external_plugin_adapter_already_exists, not_available,
}
use mpl_core.State.{AccountInfo, data_len, Authority}
use mpl_core.External.{ExternalPluginAdapterKey, ExternalPluginAdapter}
use mpl_core.External.Infos.{
  ExternalPluginAdapterInitInfo, LifecycleChecks, adapter_of, key_of, init_type, unwrap_or,
}
use mpl_core.Registry.{ExternalRegistryRecord, PluginHeaderV1, PluginRegistryV1}
use mpl_core.Registry.Evaluate.{checked_add, from_record}
use mpl_core.Host.{Host}
use mpl_core.Loading.{
  SolanaAccount, slice_from, load, load_external, load_plugin_meta, header_account,
  registry_account,
}
use mpl_core.Storage.Accounts.{
  Accounts, with_bytes, save, save_external, resize_or_reallocate_account,
}
use mpl_core.Storage.AdapterKeys.{external_key_eq, find_external_plugin_adapter}
use mpl_core.Storage.Meta.{Meta, with_account}
use mpl_core.Storage.Plugins.{remove_stored}
use mpl_core.Storage.LifecycleChecks.{validate_lifecycle_checks}

-- Adapters that are still in development cannot be added.
abbrev pub is_available : ExternalPluginAdapterInitInfo → Bool
is_available (ExternalPluginAdapterInitInfo.lifecycle_hook _) = false
is_available (ExternalPluginAdapterInitInfo.linked_lifecycle_hook _) = false
is_available _ = true

-- The authority and the checks of a new adapter's record.
abbrev pub hooks_of :
    ExternalPluginAdapterInitInfo → Result (Option Authority × Option LifecycleChecks)
hooks_of (ExternalPluginAdapterInitInfo.lifecycle_hook info) =
    validate_lifecycle_checks info.lifecycle_checks false
    >> ok (info.init_plugin_authority, some info.lifecycle_checks)
hooks_of (ExternalPluginAdapterInitInfo.linked_lifecycle_hook info) =
    validate_lifecycle_checks info.lifecycle_checks false
    >> ok (info.init_plugin_authority, some info.lifecycle_checks)
hooks_of (ExternalPluginAdapterInitInfo.oracle info) =
    validate_lifecycle_checks info.lifecycle_checks true
    >> ok (info.init_plugin_authority, some info.lifecycle_checks)
hooks_of (ExternalPluginAdapterInitInfo.app_data info) = ok (info.init_plugin_authority, none)
hooks_of (ExternalPluginAdapterInitInfo.linked_app_data info) =
    ok (info.init_plugin_authority, none)
hooks_of (ExternalPluginAdapterInitInfo.data_section _) = ok (some Authority.none, none)
hooks_of (ExternalPluginAdapterInitInfo.agent_identity info) =
    validate_lifecycle_checks info.lifecycle_checks false
    >> ok (info.init_plugin_authority, some info.lifecycle_checks)

abbrev appended_len : Option (List ℕ) → ℕ
appended_len none = 0
appended_len (some bytes) = length bytes

-- The length of a new adapter's data, where the adapter has data of its own.
abbrev pub new_data_len : ExternalPluginAdapter → Option (List ℕ) → Option ℕ
new_data_len (ExternalPluginAdapter.lifecycle_hook _) appended = some (appended_len appended)
new_data_len (ExternalPluginAdapter.app_data _) appended = some (appended_len appended)
new_data_len (ExternalPluginAdapter.data_section _) appended = some (appended_len appended)
new_data_len _ _ = none

-- `Some(offset)` where there is data.
abbrev pub placed : Option ℕ → ℕ → Option ℕ
placed none offset = none
placed (some _) offset = some offset

-- `Vec::remove`
abbrev pub remove_at {ℓ} : {A : Type ℓ} → ℕ → List A → List A
remove_at n [] = []
remove_at zero (x ∷ xs) = xs
remove_at (suc n) (x ∷ xs) = x ∷ remove_at n xs

module _ ⦃host : Host⦄ where
  -- `sol_memcpy(&mut bytes[offset..], data, data.len())`
  abbrev pub copy_data : List ℕ → ℕ → AccountInfo → Result AccountInfo
  copy_data copied offset account = do
    slice_from account.bytes offset >>= λ _. ok tt
    ok (with_bytes account (host.sol_memcpy account.bytes offset copied))

  -- `fetch_wrapped_external_plugin_adapter`, with the core data given or loaded
  abbrev core_or_load_adapted : {T : Type 0} → SolanaAccount T → AccountInfo → Option T → Result T
  core_or_load_adapted trait account (some core) = ok core
  core_or_load_adapted trait account none = do
    core ← load trait account 0
    guard (not (trait.len core == data_len account)) (custom external_plugin_adapter_not_found)
    ok core

  unfoldable pub fetch_wrapped_external_plugin_adapter :
      {T : Type 0}
      → SolanaAccount T
      → AccountInfo
      → Option T
      → ExternalPluginAdapterKey
      → Result (ExternalRegistryRecord × ExternalPluginAdapter)
  fetch_wrapped_external_plugin_adapter trait account core key = do
    core' ← core_or_load_adapted trait account core
    meta ← load_plugin_meta trait account core'
    result ← find_external_plugin_adapter meta.1.external_registry key account
    found ← ok_or result (custom external_plugin_adapter_not_found)
    bytes ← slice_from account.bytes found.1.offset
    adapter ← ok_or (host.decode_external bytes) borsh_io_error
    ok (found.1, adapter)

  -- `delete_external_plugin_adapter`
  unfoldable pub delete_external_plugin_adapter :
      {T : Type 0}
      → SolanaAccount T
      → ExternalPluginAdapterKey
      → T
      → AccountInfo
      → Accounts
      → Result Accounts
  delete_external_plugin_adapter trait key core system_program accounts = do
    let account = accounts.account
    guard (not (trait.len core == data_len account)) (custom external_plugin_adapter_not_found)
    meta ← load_plugin_meta trait account core
    result ← find_external_plugin_adapter meta.1.external_registry key account
    found ← ok_or result (custom external_plugin_adapter_not_found)
    adapter ← load_external account found.1.offset
    stored_len ← checked_add (length (host.encode_external adapter)) (unwrap_or found.1.data_len 0)
    remove_stored trait core found.1.offset stored_len
        (length (host.encode_external_record found.1)) system_program
        (record {
          header = meta.0;
          registry = record meta.1 {
            external_registry = remove_at found.0 meta.1.external_registry;
          };
          accounts = accounts;
        })

  -- No adapter has the key already.
  abbrev pub is_new :
      List ExternalRegistryRecord → ExternalPluginAdapterKey → AccountInfo → Result (Unit {0})
  is_new [] key account = ok tt
  is_new (r ∷ rs) key account = from_record account r >>= λ k.
      guard (not (external_key_eq k key)) (custom external_plugin_adapter_already_exists)
      >> is_new rs key account

  abbrev pub append_data : Option (List ℕ) → ℕ → AccountInfo → Result AccountInfo
  append_data none offset account = ok account
  append_data (some appended) offset account = copy_data appended offset account

  -- The writes of `initialize_external_plugin_adapter`: the adapter goes where the registry was, its data
  -- behind it and the registry behind these.
  abbrev pub store_adapter :
      ExternalPluginAdapter
      → Option (List ℕ)
      → (header_offset data_offset new_size : ℕ) → AccountInfo
      → PluginHeaderV1
      → PluginRegistryV1
      → Meta
      → Result Meta
  store_adapter adapter appended header_offset data_offset new_size system_program header registry
        meta =
      do
        resized ← resize_or_reallocate_account system_program new_size meta.accounts
        headed ← save header_account header header_offset resized.account
        plugged ← save_external adapter meta.header.plugin_registry_offset headed
        filled ← append_data appended data_offset plugged
        registered ← save registry_account registry header.plugin_registry_offset filled
        ok (record {
          header = header;
          registry = registry;
          accounts = with_account resized registered;
        })

  -- The record of a new adapter, with the offset of its data.
  abbrev pub record_of :
      ExternalPluginAdapterInitInfo
      → Option Authority × Option LifecycleChecks
      → Option (List ℕ)
      → (offset data_offset : ℕ) → ExternalRegistryRecord
  record_of info hooks appended offset data_offset = record {
    plugin_type = init_type info;
    authority = unwrap_or hooks.0 Authority.update_authority;
    lifecycle_checks = hooks.1;
    offset = offset;
    data_offset = placed (new_data_len (adapter_of info) appended) data_offset;
    data_len = new_data_len (adapter_of info) appended;
  }

  -- What follows the checks: the sizes, the new registry, and the writes.
  abbrev pub add_adapter :
      ExternalPluginAdapterInitInfo
      → ℕ
      → AccountInfo
      → Option (List ℕ)
      → Meta
      → Option Authority × Option LifecycleChecks
      → Result Meta
  add_adapter info header_offset system_program appended meta hooks = do
    let old_registry_offset = meta.header.plugin_registry_offset
    let adapter = adapter_of info
    let size = unwrap_or (new_data_len adapter appended) 0
    let plugin_size = length (host.encode_external adapter)
    let draft = record_of info hooks appended old_registry_offset 0
    sizes ← checked_add plugin_size (length (host.encode_external_record draft))
    size_increase ← checked_add sizes size
    data_offset ← checked_add old_registry_offset plugin_size
    new_registry_offset ← checked_add data_offset size
    let header = record meta.header { plugin_registry_offset = new_registry_offset }
    let new_record = record_of info hooks appended old_registry_offset data_offset
    let registry = record meta.registry {
      external_registry = meta.registry.external_registry ++ (new_record ∷ []);
    }
    new_size ← checked_add (data_len meta.accounts.account) size_increase
    store_adapter adapter appended header_offset data_offset new_size system_program header registry
        meta

  -- `initialize_external_plugin_adapter`
  unfoldable pub initialize_external_plugin_adapter :
      ExternalPluginAdapterInitInfo → ℕ → AccountInfo → Option (List ℕ) → Meta → Result Meta
  initialize_external_plugin_adapter info header_offset system_program appended meta = do
    guard (is_available info) (custom not_available)
    is_new meta.registry.external_registry (key_of info) meta.accounts.account
    hooks ← hooks_of info
    add_adapter info header_offset system_program appended meta hooks
