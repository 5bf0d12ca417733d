-- ===== src/Loading.antt =====
-- programs/mpl-core/src/state/traits.rs, utils/mod.rs and plugins/utils.rs: reading an account.
use mpl_core.Prelude.{
  ℕ, not, Option, none, some, List, length, drop, get_elem?, find, leb, ◌==◌, if◌then◌else◌,
}
use mpl_core.Error.{
  Result, ok, err, panic, custom, borsh_io_error, invalid_account_owner, deserialization_error,
  plugin_not_found, guard, ok_or, ◌>>=◌, ◌>>◌,
}
use mpl_core.State.{
  Key, key_eq, asset_v1, collection_v1, plugin_header_v1, plugin_registry_v1, AccountInfo, data_len,
  AssetV1, asset_len, CollectionV1, collection_len, Authority,
}
use mpl_core.Plugins.{Plugin, PluginType, plugin_type_eq}
use mpl_core.External.{ExternalPluginAdapter}
use mpl_core.Registry.{PluginHeaderV1, PluginRegistryV1, RegistryRecord, header_len, registry_len}
use mpl_core.Host.{Host, Decoder}

-- `&bytes[offset..]`, which panics past the end.
abbrev pub slice_from : List ℕ → ℕ → Result (List ℕ)
slice_from bytes offset = if leb offset (length bytes) then ok (drop offset bytes) else err panic

-- The traits `SolanaAccount` and `DataBlob` at a type: its discriminator, decoder,
-- encoder and length.
pub record SolanaAccount (T : Type 0) : Type 0 where
  pub account_key : Key
  pub deserialize : Decoder T
  pub serialize : T → List ℕ
  pub len : T → ℕ

module _ ⦃host : Host⦄ where
  -- `load_key`: the byte at `offset`; Rust's indexing panics out of bounds.
  unfoldable pub load_key : AccountInfo → ℕ → Result Key
  load_key account offset = do
    byte ← ok_or (get_elem? account.bytes offset) panic
    ok_or (host.key_from_u8 byte) (custom deserialization_error)

  -- `SolanaAccount::load`
  unfoldable pub load : {T : Type 0} → SolanaAccount T → AccountInfo → ℕ → Result T
  unfolding load_key
  load trait account offset = do
    key ← load_key account offset
    guard (key_eq key trait.account_key) (custom deserialization_error)
    guard (account.owner == host.program_id) invalid_account_owner
    bytes ← slice_from account.bytes offset
    ok_or (trait.deserialize bytes) (custom deserialization_error)

  -- The implementations of `SolanaAccount` and `DataBlob`.
  abbrev pub asset_account : SolanaAccount AssetV1
  asset_account = record {
    account_key = asset_v1;
    deserialize = host.decode_asset;
    serialize = host.encode_asset;
    len = asset_len;
  }

  abbrev pub collection_account : SolanaAccount CollectionV1
  collection_account = record {
    account_key = collection_v1;
    deserialize = host.decode_collection;
    serialize = host.encode_collection;
    len = collection_len;
  }

  abbrev pub header_account : SolanaAccount PluginHeaderV1
  header_account = record {
    account_key = plugin_header_v1;
    deserialize = host.decode_header;
    serialize = host.encode_header;
    len = header_len;
  }

  abbrev pub registry_account : SolanaAccount PluginRegistryV1
  registry_account = record {
    account_key = plugin_registry_v1;
    deserialize = host.decode_registry;
    serialize = host.encode_registry;
    len = registry_len;
  }

  -- `Plugin::load`
  unfoldable pub load_plugin : AccountInfo → ℕ → Result Plugin
  load_plugin account offset = do
    bytes ← slice_from account.bytes offset
    ok_or (host.decode_plugin bytes) (custom deserialization_error)

  -- `ExternalPluginAdapter::load`
  unfoldable pub load_external : AccountInfo → ℕ → Result ExternalPluginAdapter
  load_external account offset = do
    bytes ← slice_from account.bytes offset
    ok_or (host.decode_external bytes) (custom deserialization_error)

  -- The asset or collection with its plugin header and registry, which come together.
  abbrev pub CoreData : Type 0 → Type 0
  CoreData T = T × Option PluginHeaderV1 × Option PluginRegistryV1

  -- Where the account is longer than its core data: the header behind it, and the registry there.
  abbrev pub load_plugin_meta :
      {T : Type 0} → SolanaAccount T → AccountInfo → T → Result (PluginHeaderV1 × PluginRegistryV1)
  load_plugin_meta trait account core = do
    header ← load header_account account (trait.len core)
    registry ← load registry_account account header.plugin_registry_offset
    ok (header, registry)

  -- `fetch_core_data`
  unfoldable pub fetch_core_data :
      {T : Type 0} → SolanaAccount T → AccountInfo → Result (CoreData T)
  fetch_core_data trait account = do
    core ← load trait account 0
    if trait.len core == data_len account
        then ok (core, none, none)
        else (load_plugin_meta trait account core >>= λ (header, registry).
            ok (core, some header, some registry))

  -- `record.plugin_type == plugin_type`, over a registry.
  abbrev pub find_record : PluginType → List RegistryRecord → Option RegistryRecord
  find_record plugin_type = find (λ record'. plugin_type_eq record'.plugin_type plugin_type)

  -- The core data that `fetch_wrapped_plugin` starts from; what it is given is not checked again.
  abbrev pub core_or_load : {T : Type 0} → SolanaAccount T → AccountInfo → Option T → Result T
  core_or_load trait account (some core) = ok core
  core_or_load trait account none = do
    core ← load trait account 0
    guard (not (trait.len core == data_len account)) (custom plugin_not_found)
    ok core

  -- `fetch_wrapped_plugin`
  unfoldable pub fetch_wrapped_plugin :
      {T : Type 0}
      → SolanaAccount T
      → AccountInfo
      → Option T
      → PluginType
      → Result (Authority × Plugin)
  fetch_wrapped_plugin trait account core plugin_type = do
    core' ← core_or_load trait account core
    meta ← load_plugin_meta trait account core'
    found ← ok_or (find_record plugin_type meta.1.registry) (custom plugin_not_found)
    bytes ← slice_from account.bytes found.offset
    plugin ← ok_or (host.decode_plugin bytes) borsh_io_error
    ok (found.authority, plugin)
