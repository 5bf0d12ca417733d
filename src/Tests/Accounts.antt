-- ===== src/Tests/Accounts.antt =====
-- A host with decoders for the few values that the tests store, and accounts that hold them: an asset
-- and a collection with frozen plugins and with permanent delegates, and some without plugins.
use mpl_core.Prelude.{
  ℕ, zero, suc, ◌+◌, ◌-◌, true, false, Option, none, some, List, [], ◌∷◌, ◌++◌, ◌==◌, ltb, length,
  if◌then◌else◌, take, drop, repeated, write_at,
}
use mpl_core.Error.{ok, err, panic, guard, invalid_account_owner, missing_required_signature}
use mpl_core.State.{
  Authority, UpdateAuthority, Key, asset_v1, collection_v1, plugin_header_v1, plugin_registry_v1,
  AccountInfo, AssetV1, CollectionV1,
}
use mpl_core.Plugins.{Plugin, PluginType}
use mpl_core.External.{ExternalPluginAdapter}
use mpl_core.Registry.{PluginRegistryV1, RegistryRecord}
use mpl_core.Host.{Host}

-- Owned by 7, outside collections; and the one that is in the collection.
abbrev pub asset : AssetV1
asset = record {
  key = asset_v1;
  owner = 7;
  update_authority = UpdateAuthority.none;
  name = [];
  uri = [];
  seq = none;
}

abbrev pub asset_of_collection : AssetV1
asset_of_collection = record asset { update_authority = UpdateAuthority.collection 30 }

abbrev pub collection : CollectionV1
collection = record {
  key = collection_v1;
  update_authority = 8;
  name = [];
  uri = [];
  num_minted = 1;
  current_size = 1;
}

abbrev pub frozen_record : RegistryRecord
frozen_record = record {
  plugin_type = PluginType.freeze_delegate;
  authority = Authority.owner;
  offset = 47;
}

abbrev pub frozen_execute_record : RegistryRecord
frozen_execute_record = record {
  plugin_type = PluginType.freeze_execute;
  authority = Authority.owner;
  offset = 50;
}

abbrev delegate_record : PluginType → ℕ → RegistryRecord
delegate_record t offset = record {
  plugin_type = t;
  authority = Authority.address 9;
  offset = offset;
}

-- The permanent delegates are 9's.
abbrev pub registry : PluginRegistryV1
registry = record {
  key = plugin_registry_v1;
  registry =
      frozen_record
      ∷ delegate_record PluginType.permanent_transfer_delegate 48
      ∷ delegate_record PluginType.permanent_burn_delegate 49
      ∷ frozen_execute_record
      ∷ [];
  external_registry = [];
}

abbrev pub collection_frozen_record : RegistryRecord
collection_frozen_record = record {
  plugin_type = PluginType.permanent_freeze_delegate;
  authority = Authority.update_authority;
  offset = 53;
}

abbrev pub registry_of_collection : PluginRegistryV1
registry_of_collection = record {
  key = plugin_registry_v1;
  registry =
      collection_frozen_record ∷ delegate_record PluginType.permanent_transfer_delegate 54 ∷ [];
  external_registry = [];
}

abbrev pub byte_at : ℕ → List ℕ → ℕ
byte_at i [] = 0
byte_at zero (x ∷ xs) = x
byte_at (suc i) (x ∷ xs) = byte_at i xs

abbrev pub decode_key : ℕ → Option Key
decode_key byte =
    if byte == 1
    then some asset_v1
    else if byte == 3
    then some plugin_header_v1
    else if byte == 4
    then some plugin_registry_v1
    else if byte == 5
    then some collection_v1
    else none

abbrev decode_some_plugin : ℕ → Option Plugin
decode_some_plugin byte =
    if byte == 21
    then some (Plugin.freeze_delegate (record { frozen = true }))
    else if byte == 22
    then some Plugin.permanent_transfer_delegate
    else if byte == 23
    then some Plugin.permanent_burn_delegate
    else if byte == 24
    then some (Plugin.freeze_execute (record { frozen = true }))
    else if byte == 25
    then some (Plugin.permanent_freeze_delegate (record { frozen = true }))
    else none

instance abbrev pub test_host : Host
test_host = record {
  key_from_u8 = decode_key;
  decode_asset = λ bytes. some (if byte_at 1 bytes == 1 then asset_of_collection else asset);
  decode_collection = λ _. some collection;
  decode_header =
      λ bytes. some (record { key = plugin_header_v1; plugin_registry_offset = byte_at 1 bytes });
  decode_registry =
      λ bytes. some (if byte_at 1 bytes == 1 then registry else registry_of_collection);
  decode_plugin = λ bytes. decode_some_plugin (byte_at 0 bytes);
  decode_external = λ _. some (ExternalPluginAdapter.agent_identity (record { uri = [] }));
  decode_pubkey = λ _. none;
  decode_authority = λ _. none;
  decode_linked_data_key = λ _. none;
  decode_oracle_validation = λ _. none;
  program_id = 100;
  bubblegum_id = 101;
  agent_identity_id = 102;
  agent_tools_id = 103;
  pubkey_bytes = λ a. a ∷ [];
  find_program_address = λ seeds program. program;
  mpl_core_prefix = [];
  agent_identity_prefix = [];
  assert_signer = λ info. guard info.is_signer missing_required_signature;
  assert_derivation = λ program account seeds error. ok tt;
  execution_delegate_key = 1;
  execution_delegate_record = λ _. err invalid_account_owner;
  encode_asset = λ _. [];
  encode_collection = λ _. [];
  encode_header = λ _. [];
  encode_registry = λ _. [];
  encode_plugin = λ _. [];
  encode_external = λ _. [];
  encode_record = λ _. [];
  encode_external_record = λ _. [];
  encode_authority = λ _. [];
  uninitialized_byte = 0;
  minimum_balance = λ n. 10 + n;
  resize = λ info n.
      ok (record info { bytes = take n info.bytes ++ repeated 0 (n - length info.bytes) });
  sol_memmove = λ bytes dst src n. write_at dst (take n (drop src bytes)) bytes;
  sol_memcpy = λ bytes dst copied. write_at dst copied bytes;
  system_transfer = λ from to program n.
      if ltb from.lamports n
      then err panic
      else ok
          (record from { lamports = from.lamports - n }, record to { lamports = to.lamports + n });
  system_program_id = 0;
  spl_noop_id = 104;
}

abbrev pub zeros : ℕ → List ℕ
zeros = repeated 0

abbrev pub stored : ℕ → List ℕ → AccountInfo
stored key bytes = record { key = key; owner = 100; is_signer = false; lamports = 1; bytes = bytes }

-- With the registry and four plugins behind the core data; and without.
abbrev pub frozen_asset : AccountInfo
frozen_asset = stored 20 (1 ∷ zeros 42 ++ (3 ∷ 45 ∷ 4 ∷ 1 ∷ 21 ∷ 22 ∷ 23 ∷ 24 ∷ []))

abbrev pub bare_asset : AccountInfo
bare_asset = stored 21 (1 ∷ zeros 42)

abbrev pub collection_asset : AccountInfo
collection_asset = stored 22 (1 ∷ 1 ∷ zeros 73)

abbrev pub frozen_collection : AccountInfo
frozen_collection = stored 30 (5 ∷ zeros 48 ++ (3 ∷ 51 ∷ 4 ∷ 2 ∷ 25 ∷ 22 ∷ []))

abbrev pub bare_collection : AccountInfo
bare_collection = stored 31 (5 ∷ zeros 48)

abbrev pub signer : ℕ → AccountInfo
signer key = record { key = key; owner = 0; is_signer = true; lamports = 5; bytes = [] }
