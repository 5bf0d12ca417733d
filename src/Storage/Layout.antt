-- ===== src/Storage/Layout.antt =====
-- What an account's plugins are, without offsets and bytes: a list of plugins and external adapters in
-- the order of their addition, and how plugins/utils.rs stores it behind the core data.
use mpl_core.Prelude.{
  ℕ, ◌+◌, ◌≡◌, Bool, Option, none, some, List, [], ◌∷◌, ◌++◌, length, if◌then◌else◌,
}
use mpl_core.State.{Authority, plugin_header_v1, plugin_registry_v1, AccountInfo}
use mpl_core.Plugins.{Plugin, PluginType, plugin_type, plugin_type_eq, plugin_len}
use mpl_core.External.{
  ExternalPluginAdapter, adapter_type, HookableLifecycleEvent, ExternalCheckResult,
}
use mpl_core.Registry.{PluginHeaderV1, PluginRegistryV1, RegistryRecord, ExternalRegistryRecord}
use mpl_core.Host.{Host}
use mpl_core.Loading.{SolanaAccount, header_account, registry_account}
use mpl_core.Storage.Codec.{IsCoded, ReadsBack}
use mpl_core.Storage.Accounts.{Accounts, with_bytes}
use mpl_core.Storage.Meta.{Meta, with_account}

-- An external adapter with what its record says of it, and with its data where it has some.
pub record StoredAdapter : Type 0 where
  pub adapter : ExternalPluginAdapter
  pub authority : Authority
  pub lifecycle_checks : Option (List (HookableLifecycleEvent × ExternalCheckResult))
  pub adapter_data : Option (List ℕ)

pub data Item : Type 0 where
  internal : Authority → Plugin → Item
  external : StoredAdapter → Item

abbrev pub data_bytes : Option (List ℕ) → List ℕ
data_bytes none = []
data_bytes (some bytes) = bytes

module _ ⦃host : Host⦄ where
  abbrev pub item_bytes : Item → List ℕ
  item_bytes (internal _ plugin) = host.encode_plugin plugin
  item_bytes (external e) = host.encode_external e.adapter ++ data_bytes e.adapter_data

  abbrev pub area : List Item → List ℕ
  area [] = []
  area (item ∷ items) = item_bytes item ++ area items

  -- Where an item that starts at an offset ends.
  abbrev pub next : ℕ → Item → ℕ
  next offset item = offset + length (item_bytes item)

  abbrev pub internal_record : ℕ → Authority → Plugin → RegistryRecord
  internal_record offset authority plugin = record {
    plugin_type = plugin_type plugin;
    authority = authority;
    offset = offset;
  }

  -- The records of plugins that are stored from an offset on.
  abbrev pub records : ℕ → List Item → List RegistryRecord
  records offset [] = []
  records offset (internal authority plugin ∷ items) =
      internal_record offset authority plugin
      ∷ records (next offset (internal authority plugin)) items
  records offset (external e ∷ items) = records (next offset (external e)) items

  abbrev data_position : ℕ → StoredAdapter → Option ℕ
  data_position offset e = elim e.adapter_data [
    | none ↦ none
    | some _ ↦ some (offset + length (host.encode_external e.adapter))
  ]

  abbrev pub data_size : Option (List ℕ) → Option ℕ
  data_size none = none
  data_size (some bytes) = some (length bytes)

  abbrev pub external_record : ℕ → StoredAdapter → ExternalRegistryRecord
  external_record offset e = record {
    plugin_type = adapter_type e.adapter;
    authority = e.authority;
    lifecycle_checks = e.lifecycle_checks;
    offset = offset;
    data_offset = data_position offset e;
    data_len = data_size e.adapter_data;
  }

  abbrev pub external_records : ℕ → List Item → List ExternalRegistryRecord
  external_records offset [] = []
  external_records offset (internal authority plugin ∷ items) =
      external_records (next offset (internal authority plugin)) items
  external_records offset (external e ∷ items) =
      external_record offset e ∷ external_records (next offset (external e)) items

  abbrev pub registry_at : ℕ → List Item → PluginRegistryV1
  registry_at offset items = record {
    key = plugin_registry_v1;
    registry = records offset items;
    external_registry = external_records offset items;
  }

  abbrev pub header_at : ℕ → PluginHeaderV1
  header_at offset = record { key = plugin_header_v1; plugin_registry_offset = offset }

module _ ⦃host : Host⦄ {T : Type 0} (trait : SolanaAccount T) (core : T) where
  -- Where the plugins stand: behind the core data and the header.
  abbrev pub area_offset : ℕ
  area_offset = trait.len core + 1 + 8

  abbrev pub header_of : List Item → PluginHeaderV1
  header_of items = header_at (area_offset + length (area items))

  abbrev pub registry_of : List Item → PluginRegistryV1
  registry_of items = registry_at area_offset items

  -- The bytes of an account with these plugins.
  abbrev pub layout : List Item → List ℕ
  layout items =
      trait.serialize core
      ++ (header_account.serialize (header_of items)
          ++ (area items ++ registry_account.serialize (registry_of items)))

  abbrev pub meta_of : List Item → Accounts → Meta
  meta_of items accounts = record {
    header = header_of items;
    registry = registry_of items;
    accounts = accounts;
  }

  -- The accounts with these plugins stored in the first.
  abbrev pub with_items : List Item → Accounts → Accounts
  with_items items accounts = with_account accounts (with_bytes accounts.account (layout items))

  -- An account of the program that stores the core data and these plugins.
  pub record IsLaidOut (account : AccountInfo) (items : List Item) : Type 0 where
    pub owned : account.owner ≡ host.program_id
    pub stored : account.bytes ≡ layout items

  -- The core data, the header and the registry are coded as they are for these plugins.
  pub record IsCodedMeta (items : List Item) : Type 0 where
    pub core_coded : IsCoded trait core
    pub header_coded : IsCoded header_account (header_of items)
    pub registry_coded : IsCoded registry_account (registry_of items)

-- A plugin is stored in as many bytes as its length says, and is read back.
pub record IsCodedPlugin ⦃host : Host⦄ (plugin : Plugin) : Type 0 where
  pub sized : length (host.encode_plugin plugin) ≡ plugin_len plugin
  pub reads_back : ReadsBack host.decode_plugin (host.encode_plugin plugin) plugin

-- No plugin is of the type.
abbrev pub IsFree : PluginType → List Item → Type 0
IsFree t [] = Unit {0}
IsFree t (internal _ plugin ∷ items) =
    (plugin_type_eq (plugin_type plugin) t ≡ Bool.false) × IsFree t items
IsFree t (external _ ∷ items) = IsFree t items

-- The list around the first plugin of a type.
pub record Around : Type 0 where
  pub before : List Item
  pub authority : Authority
  pub plugin : Plugin
  pub after : List Item

abbrev prepend : Item → Option Around → Option Around
prepend item none = none
prepend item (some around) = some (record around { before = item ∷ around.before })

abbrev pub split_at : PluginType → List Item → Option Around
split_at t [] = none
split_at t (external e ∷ items) = prepend (external e) (split_at t items)
split_at t (internal authority plugin ∷ items) =
    let rest = split_at t items in
    if plugin_type_eq (plugin_type plugin) t
    then some (record { before = []; authority = authority; plugin = plugin; after = items })
    else prepend (internal authority plugin) rest
