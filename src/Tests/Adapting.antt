-- ===== src/Tests/Adapting.antt =====
-- A host that stores external adapters around a plugin, and accounts with them.
use mpl_core.Prelude.{
  length-repeated, ◌+◌, ◌-◌, sum, map, Option, ap, sym, fitted_less, length, ℕ, refl, arith, ◌==◌,
  none, some, List, [], ◌∷◌, if◌then◌else◌,
}
use mpl_core.Error.{Result, ok, ok-injective}
use mpl_core.State.{Authority, asset_len}
use mpl_core.External.{
  ExternalPluginAdapter, ExternalPluginAdapterKey, ExternalPluginAdapterType,
  HookableLifecycleEvent,
}
use mpl_core.External.Infos.{ExternalPluginAdapterInitInfo, LifecycleChecks, key_of}
use mpl_core.Registry.{PluginRegistryV1, ExternalRegistryRecord, registry_len, external_record_len}
use mpl_core.Registry.Evaluate.{from_record}
use mpl_core.Host.{Host}
use mpl_core.Loading.{asset_account}
use mpl_core.Storage.Meta.{Meta}
use mpl_core.Storage.Accounts.{with_bytes, Accounts}
use mpl_core.Storage.Runtime.{IsRuntime}
use mpl_core.Storage.Layout.{
  Item, external, StoredAdapter, area_offset, layout, with_items, meta_of, IsCodedMeta,
}
use mpl_core.Storage.Adapters.{initialize_external_plugin_adapter}
use mpl_core.Storage.AddedAdapters.{AreRecordsSized}
use mpl_core.Storage.NewItems.{item_of}
use mpl_core.Storage.RemovedAdapters.{AreOthers}
use mpl_core.Tests.Accounts.{asset, signer, zeros, stored, byte_at}
use mpl_core.Tests.Stored.{storing_host, burn, burn_at, of_records, decode_code, record_code}

abbrev pub checks : LifecycleChecks
checks = (HookableLifecycleEvent.execute, (record { flags = 4 })) ∷ []

abbrev pub identity_record : ExternalRegistryRecord
identity_record = record {
  plugin_type = ExternalPluginAdapterType.agent_identity;
  authority = Authority.update_authority;
  lifecycle_checks = some checks;
  offset = 52;
  data_offset = none;
  data_len = none;
}

-- The record of two bytes of data that 5 may write.
abbrev pub stored_record : ExternalRegistryRecord
stored_record = record {
  plugin_type = ExternalPluginAdapterType.app_data;
  authority = Authority.update_authority;
  lifecycle_checks = none;
  offset = 55;
  data_offset = some 57;
  data_len = some 2;
}

abbrev pub identity : StoredAdapter
identity = record {
  adapter = ExternalPluginAdapter.agent_identity (record { uri = [] });
  authority = Authority.update_authority;
  lifecycle_checks = some checks;
  adapter_data = none;
}

abbrev pub external_code : ExternalRegistryRecord → ℕ
external_code r = r.offset + 100

abbrev pub decode_adapted : ℕ → PluginRegistryV1
decode_adapted code =
    if code == 209
    then record (of_records (burn_at 54 ∷ [])) { external_registry = identity_record ∷ [] }
    else if code == 364
    then record (of_records (burn_at 54 ∷ [])) {
      external_registry = identity_record ∷ stored_record ∷ [];
    }
    else decode_code code

abbrev pub adapting_host : Host
adapting_host = record storing_host {
  decode_registry = λ bytes. some (decode_adapted (byte_at 1 bytes));
  encode_external = λ _. 6 ∷ 0 ∷ [];
  encode_registry = λ r.
      4
      ∷ (sum (map record_code r.registry) + sum (map external_code r.external_registry))
      ∷ zeros (registry_len r - 2);
}

pub adapting_runtime : IsRuntime adapting_host
adapting_runtime = record {
  resize_lem = λ account resized n h. sym (ok-injective h);
  shrink_lem =
      λ account n h. ap (λ bytes. ok (with_bytes account bytes)) (fitted_less 0 n account.bytes h);
  transfer_lem = λ from to program from' to' n h. ground arith;
  memmove_lem = λ bytes dst src n _ _. refl;
  memcpy_lem = λ bytes copied dst _. refl;
}

abbrev pub held : List Item → Accounts
held items = record {
  account =
      record (stored 40
        (layout ⦃host = adapting_host⦄ (asset_account ⦃host = adapting_host⦄) asset items)) {
          lamports = 1000;
        };
  payer = record (signer 7) { lamports = 1000 };
}

abbrev pub adapted : List Item
adapted = external identity ∷ burn ∷ []

abbrev pub Coded : List Item → Type 0
Coded = IsCodedMeta ⦃host = adapting_host⦄ (asset_account ⦃host = adapting_host⦄) asset

pub adapted-Coded : Coded adapted
unfolding asset_len
adapted-Coded = record {
  core_coded = record {
    first = 1;
    others = zeros 42;
    serialized = refl;
    first_key = refl;
    sized = refl;
    reads_back = λ rest. refl;
  };
  header_coded = record {
    first = 3;
    others = 55 ∷ zeros 7;
    serialized = refl;
    first_key = refl;
    sized = refl;
    reads_back = λ rest. refl;
  };
  registry_coded = record {
    first = 4;
    others = 209 ∷ zeros 39;
    serialized = refl;
    first_key = refl;
    sized = refl;
    reads_back = λ rest. refl;
  };
}

pub burn-Coded : Coded (burn ∷ [])
unfolding asset_len
burn-Coded = record {
  core_coded = record {
    first = 1;
    others = zeros 42;
    serialized = refl;
    first_key = refl;
    sized = refl;
    reads_back = λ rest. refl;
  };
  header_coded = record {
    first = 3;
    others = 53 ∷ zeros 7;
    serialized = refl;
    first_key = refl;
    sized = refl;
    reads_back = λ rest. refl;
  };
  registry_coded = record {
    first = 4;
    others = 55 ∷ zeros 17;
    serialized = refl;
    first_key = refl;
    sized = refl;
    reads_back = λ rest. refl;
  };
}

abbrev pub left : ℕ
left =
    length (layout ⦃host = adapting_host⦄ (asset_account ⦃host = adapting_host⦄) asset (burn ∷ []))

abbrev pub info : ExternalPluginAdapterInitInfo
info =
    ExternalPluginAdapterInitInfo.app_data
      (record { data_authority = Authority.address 5; init_plugin_authority = none; schema = none })

abbrev pub appended : Option (List ℕ)
appended = some (7 ∷ 8 ∷ [])

abbrev pub extended : List Item
extended = external identity ∷ burn ∷ external (item_of info appended) ∷ []

pub extended-Coded : Coded extended
unfolding asset_len
extended-Coded = record {
  core_coded = record {
    first = 1;
    others = zeros 42;
    serialized = refl;
    first_key = refl;
    sized = refl;
    reads_back = λ rest. refl;
  };
  header_coded = record {
    first = 3;
    others = 59 ∷ zeros 7;
    serialized = refl;
    first_key = refl;
    sized = refl;
    reads_back = λ rest. refl;
  };
  registry_coded = record {
    first = 4;
    others = 364 ∷ zeros 68;
    serialized = refl;
    first_key = refl;
    sized = refl;
    reads_back = λ rest. refl;
  };
}

abbrev pub before : Meta
before =
    meta_of ⦃host = adapting_host⦄ (asset_account ⦃host = adapting_host⦄) asset adapted
      (held adapted)

-- The account resized for the new list, with this list.
abbrev pub grown : Accounts → Meta
grown resized =
    meta_of ⦃host = adapting_host⦄ (asset_account ⦃host = adapting_host⦄) asset extended (
      with_items ⦃host = adapting_host⦄ (asset_account ⦃host = adapting_host⦄) asset extended
        resized)

pub records_sized : AreRecordsSized ⦃host = adapting_host⦄
records_sized r = length-repeated {A = ℕ} 0 (external_record_len r)

pub keys_differ :
    AreOthers ⦃host = adapting_host⦄
      (held adapted).account
      (key_of info)
      (area_offset ⦃host = adapting_host⦄ (asset_account ⦃host = adapting_host⦄) asset)
      adapted
unfolding from_record asset_len
keys_differ = ((ExternalPluginAdapterKey.agent_identity, refl, refl), tt)

abbrev pub or_else : Result Meta → Meta → Meta
or_else (ok m) other = m
or_else _ other = other

abbrev pub after : Meta
after =
    or_else
      (initialize_external_plugin_adapter ⦃host = adapting_host⦄ info 43 (signer 0) appended before)
      before
