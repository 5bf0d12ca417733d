-- ===== src/Storage/Meta.antt =====
-- programs/mpl-core/src/plugins/utils.rs: the plugin header and the registry of an account.
use mpl_core.Prelude.{ℕ, ◌+◌, ◌==◌, List, [], map, if◌then◌else◌, not, none}
use mpl_core.Error.{
  Result, ok, custom, borsh_io_error, plugins_not_initialized, guard, ok_or, ◌>>=◌,
}
use mpl_core.State.{AccountInfo, data_len, asset_len, plugin_header_v1, plugin_registry_v1}
use mpl_core.Plugins.{PluginType}
use mpl_core.Registry.{PluginHeaderV1, PluginRegistryV1, RegistryRecord, registry_len}
use mpl_core.Host.{Host}
use mpl_core.Loading.{
  SolanaAccount, load, load_plugin_meta, core_or_load, header_account, registry_account,
  asset_account,
}
use mpl_core.Storage.Accounts.{Accounts, save, resize_or_reallocate_account}

-- The header and the registry, which operations change together with the accounts.
pub record Meta : Type 0 where
  pub header : PluginHeaderV1
  pub registry : PluginRegistryV1
  pub accounts : Accounts

abbrev pub empty_registry : PluginRegistryV1
empty_registry = record { key = plugin_registry_v1; registry = []; external_registry = [] }

-- A header at an offset: the registry follows it.
abbrev pub new_header : ℕ → PluginHeaderV1
new_header header_offset = record {
  key = plugin_header_v1;
  plugin_registry_offset = header_offset + 1 + 8;
}

abbrev pub with_account : Accounts → AccountInfo → Accounts
with_account accounts account = record accounts { account = account }

module _ ⦃host : Host⦄ where
  -- The creation of the header and the registry behind the core data.
  abbrev pub new_meta : ℕ → AccountInfo → Accounts → Result Meta
  new_meta header_offset system_program accounts = do
    let header = new_header header_offset
    resized ←
        resize_or_reallocate_account system_program
          (header.plugin_registry_offset + registry_len empty_registry) accounts
    headed ← save header_account header header_offset resized.account
    registered ← save registry_account empty_registry header.plugin_registry_offset headed
    ok (record {
      header = header;
      registry = empty_registry;
      accounts = with_account resized registered;
    })

  -- `create_meta_idempotent`: the core data, the header's offset, and the header and registry, which are
  -- created where the account ends with its core data.
  unfoldable pub create_meta_idempotent :
      {T : Type 0} → SolanaAccount T → AccountInfo → Accounts → Result (T × ℕ × Meta)
  create_meta_idempotent trait system_program accounts = do
    core ← load trait accounts.account 0
    meta ←
        if trait.len core == data_len accounts.account
        then new_meta (trait.len core) system_program accounts
        else (load_plugin_meta trait accounts.account core >>= λ (header, registry).
            ok (record { header = header; registry = registry; accounts = accounts }))
    ok (core, trait.len core, meta)

  -- `create_plugin_meta`
  unfoldable pub create_plugin_meta :
      {T : Type 0} → SolanaAccount T → T → AccountInfo → Accounts → Result (ℕ × Meta)
  create_plugin_meta trait core system_program accounts = do
    meta ← new_meta (trait.len core) system_program accounts
    ok (trait.len core, meta)

  -- `assert_plugins_initialized`
  unfoldable pub assert_plugins_initialized : AccountInfo → Result (Unit {0})
  assert_plugins_initialized account = do
    asset ← ok_or (host.decode_asset account.bytes) borsh_io_error
    guard (not (asset_len asset == data_len account)) (custom plugins_not_initialized)

  -- `fetch_plugins`
  unfoldable pub fetch_plugins : AccountInfo → Result (List RegistryRecord)
  fetch_plugins account = do
    asset ← core_or_load asset_account account none
    meta ← load_plugin_meta asset_account account asset
    ok meta.1.registry

  -- `list_plugins`
  unfoldable pub list_plugins :
      {T : Type 0} → SolanaAccount T → AccountInfo → Result (List PluginType)
  list_plugins trait account = do
    core ← core_or_load trait account none
    meta ← load_plugin_meta trait account core
    ok (map (λ found. found.plugin_type) meta.1.registry)
