-- ===== src/Tests/Stored.antt =====
-- A host that stores the plugins of a few lists, and accounts with these lists; runs of the storage.
use mpl_core.Prelude.{
  length, ap, fitted_less, ℕ, ◌+◌, ◌-◌, refl, sym, arith, true, Option, none, some, List, [], ◌∷◌,
  ◌==◌, if◌then◌else◌, sum, map,
}
use mpl_core.Error.{◌>>=◌, Result, ok, ok-injective}
use mpl_core.State.{Key, asset_len, Authority, address, plugin_registry_v1}
use mpl_core.Plugins.{Plugin, PluginType, plugin_type_index, plugin_len}
use mpl_core.Registry.{
  PluginRegistryV1, RegistryRecord, authority_len, registry_len, record_len, external_record_len,
}
use mpl_core.Host.{Host}
use mpl_core.Loading.{asset_account, header_account}
use mpl_core.Storage.Meta.{Meta}
use mpl_core.Storage.Codec.{IsCoded}
use mpl_core.Storage.Accounts.{resize_or_reallocate_account, Accounts, with_bytes}
use mpl_core.Storage.Runtime.{IsRuntime}
use mpl_core.Storage.Layout.{
  meta_of, with_items, header_at, Item, internal, layout, IsLaidOut, IsCodedMeta, IsCodedPlugin,
}
use mpl_core.Tests.Accounts.{decode_key, test_host, asset, signer, zeros, stored, byte_at}

abbrev pub frozen : Plugin
frozen = Plugin.freeze_delegate (record { frozen = true })

abbrev frozen_at : Authority → RegistryRecord
frozen_at authority = record {
  plugin_type = PluginType.freeze_delegate;
  authority = authority;
  offset = 52;
}

abbrev pub burn_at : ℕ → RegistryRecord
burn_at offset = record {
  plugin_type = PluginType.burn_delegate;
  authority = Authority.owner;
  offset = offset;
}

abbrev pub of_records : List RegistryRecord → PluginRegistryV1
of_records registry = record {
  key = plugin_registry_v1;
  registry = registry;
  external_registry = [];
}

-- A number that tells these registries apart.
abbrev pub record_code : RegistryRecord → ℕ
record_code r = plugin_type_index r.plugin_type + authority_len r.authority + r.offset

abbrev pub decode_code : ℕ → PluginRegistryV1
decode_code code =
    if code == 0
    then of_records []
    else if code == 54
    then of_records (frozen_at Authority.owner ∷ [])
    else if code == 55
    then of_records (burn_at 52 ∷ [])
    else if code == 111
    then of_records (frozen_at Authority.owner ∷ burn_at 54 ∷ [])
    else of_records (frozen_at (address 9) ∷ burn_at 54 ∷ [])

abbrev encode_some_plugin : Plugin → List ℕ
encode_some_plugin (Plugin.freeze_delegate _) = 21 ∷ 1 ∷ []
encode_some_plugin Plugin.burn_delegate = 26 ∷ []
encode_some_plugin _ = 0 ∷ []

abbrev decode_some_plugin : ℕ → Option Plugin
decode_some_plugin byte =
    if byte == 21 then some frozen else if byte == 26 then some Plugin.burn_delegate else none

abbrev pub storing_host : Host
storing_host = record test_host {
  key_from_u8 = λ byte. if byte == 0 then some Key.uninitialized else decode_key byte;
  decode_registry = λ bytes. some (decode_code (byte_at 1 bytes));
  decode_plugin = λ bytes. decode_some_plugin (byte_at 0 bytes);
  encode_asset = λ _. 1 ∷ zeros 42;
  encode_header = λ h. 3 ∷ h.plugin_registry_offset ∷ zeros 7;
  encode_registry = λ r. 4 ∷ sum (map record_code r.registry) ∷ zeros (registry_len r - 2);
  encode_plugin = encode_some_plugin;
  encode_record = λ r. zeros (record_len r);
  encode_external_record = λ r. zeros (external_record_len r);
  encode_authority = λ a. zeros (authority_len a);
}

pub storing_runtime : IsRuntime storing_host
storing_runtime = record {
  resize_lem = λ account resized n h. sym (ok-injective h);
  shrink_lem =
      λ account n h. ap (λ bytes. ok (with_bytes account bytes)) (fitted_less 0 n account.bytes h);
  transfer_lem = λ from to program from' to' n h. ground arith;
  memmove_lem = λ bytes dst src n _ _. refl;
  memcpy_lem = λ bytes copied dst _. refl;
}

-- The lists: a freeze delegate; that and a burn delegate; these with another authority; the latter alone.
abbrev pub burn : Item
burn = internal Authority.owner Plugin.burn_delegate

abbrev pub freeze : Authority → Item
freeze authority = internal authority frozen

abbrev pub held : List Item → Accounts
held items = record {
  account =
      record (stored 40
        (layout ⦃host = storing_host⦄ (asset_account ⦃host = storing_host⦄) asset items)) {
          lamports = 1000;
        };
  payer = record (signer 7) { lamports = 1000 };
}

abbrev pub Coded : List Item → Type 0
Coded = IsCodedMeta ⦃host = storing_host⦄ (asset_account ⦃host = storing_host⦄) asset

asset-IsCoded : IsCoded ⦃host = storing_host⦄ (asset_account ⦃host = storing_host⦄) asset
unfolding asset_len
asset-IsCoded = record {
  first = 1;
  others = zeros 42;
  serialized = refl;
  first_key = refl;
  sized = refl;
  reads_back = λ rest. refl;
}

header-IsCoded :
    (n : ℕ) → IsCoded ⦃host = storing_host⦄ (header_account ⦃host = storing_host⦄) (header_at n)
header-IsCoded n = record {
  first = 3;
  others = n ∷ zeros 7;
  serialized = refl;
  first_key = refl;
  sized = refl;
  reads_back = λ rest. refl;
}

abbrev registry_bytes : PluginRegistryV1 → List ℕ
registry_bytes r = sum (map record_code r.registry) ∷ zeros (registry_len r - 2)

pub none-Coded : Coded []
unfolding asset_len
none-Coded = record {
  core_coded = asset-IsCoded;
  header_coded = header-IsCoded 52;
  registry_coded = record {
    first = 4;
    others = 0 ∷ zeros 7;
    serialized = refl;
    first_key = refl;
    sized = refl;
    reads_back = λ rest. refl;
  };
}

pub freeze-Coded : Coded (freeze Authority.owner ∷ [])
unfolding asset_len
freeze-Coded = record {
  core_coded = asset-IsCoded;
  header_coded = header-IsCoded 54;
  registry_coded = record {
    first = 4;
    others = 54 ∷ zeros 17;
    serialized = refl;
    first_key = refl;
    sized = refl;
    reads_back = λ rest. refl;
  };
}

pub burn-Coded : Coded (burn ∷ [])
unfolding asset_len
burn-Coded = record {
  core_coded = asset-IsCoded;
  header_coded = header-IsCoded 53;
  registry_coded = record {
    first = 4;
    others = 55 ∷ zeros 17;
    serialized = refl;
    first_key = refl;
    sized = refl;
    reads_back = λ rest. refl;
  };
}

pub both-Coded : Coded (freeze Authority.owner ∷ burn ∷ [])
unfolding asset_len
both-Coded = record {
  core_coded = asset-IsCoded;
  header_coded = header-IsCoded 55;
  registry_coded = record {
    first = 4;
    others = 111 ∷ zeros 27;
    serialized = refl;
    first_key = refl;
    sized = refl;
    reads_back = λ rest. refl;
  };
}

pub address-Coded : Coded (freeze (address 9) ∷ burn ∷ [])
unfolding asset_len
address-Coded = record {
  core_coded = asset-IsCoded;
  header_coded = header-IsCoded 55;
  registry_coded = record {
    first = 4;
    others = 143 ∷ zeros 59;
    serialized = refl;
    first_key = refl;
    sized = refl;
    reads_back = λ rest. refl;
  };
}

pub frozen-IsCodedPlugin : IsCodedPlugin ⦃host = storing_host⦄ frozen
unfolding plugin_len
frozen-IsCodedPlugin = record { sized = refl; reads_back = λ rest. refl }

pub burn_delegate-IsCodedPlugin : IsCodedPlugin ⦃host = storing_host⦄ Plugin.burn_delegate
unfolding plugin_len
burn_delegate-IsCodedPlugin = record { sized = refl; reads_back = λ rest. refl }

pub held-IsLaidOut :
    (items : List Item)
    → IsLaidOut ⦃host = storing_host⦄
        (asset_account ⦃host = storing_host⦄)
        asset
        (held items).account
        items
held-IsLaidOut items = record { owned = refl; stored = refl }

abbrev pub size : List Item → ℕ
size items = length (layout ⦃host = storing_host⦄ (asset_account ⦃host = storing_host⦄) asset items)

abbrev pub meta : List Item → Accounts → Meta
meta = meta_of ⦃host = storing_host⦄ (asset_account ⦃host = storing_host⦄) asset

abbrev pub storing : List Item → Accounts → Accounts
storing = with_items ⦃host = storing_host⦄ (asset_account ⦃host = storing_host⦄) asset

-- The first list stored, resized for the second, with the second stored.
abbrev pub restored : List Item → List Item → Result Meta
restored old new =
    resize_or_reallocate_account ⦃host = storing_host⦄ (signer 0) (size new) (held old)
    >>= λ resized. ok (meta new (storing new resized))
