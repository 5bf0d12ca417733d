-- ===== src/Registry/Types.antt =====
-- programs/mpl-core/src/plugins/plugin_header.rs and plugin_registry.rs: the records.
use mpl_core.Prelude.{
  ℕ, ◌+◌, ◌*◌, List, [], ◌∷◌, Option, none, some, length, is_some, if◌then◌else◌,
}
use mpl_core.State.{Key, Authority, address}
use mpl_core.Plugins.{PluginType}
use mpl_core.External.{ExternalPluginAdapterType, HookableLifecycleEvent, ExternalCheckResult}

-- `PluginHeaderV1`
pub record PluginHeaderV1 : Type 0 where
  pub key : Key
  pub plugin_registry_offset : ℕ

-- `RegistryRecord`
pub record RegistryRecord : Type 0 where
  pub plugin_type : PluginType
  pub authority : Authority
  pub offset : ℕ

-- `ExternalRegistryRecord`
pub record ExternalRegistryRecord : Type 0 where
  pub plugin_type : ExternalPluginAdapterType
  pub authority : Authority
  pub lifecycle_checks : Option (List (HookableLifecycleEvent × ExternalCheckResult))
  pub offset : ℕ
  pub data_offset : Option ℕ
  pub data_len : Option ℕ

-- `PluginRegistryV1`
pub record PluginRegistryV1 : Type 0 where
  pub key : Key
  pub registry : List RegistryRecord
  pub external_registry : List ExternalRegistryRecord

-- `PluginHeaderV1::BASE_LEN`
abbrev pub header_len : PluginHeaderV1 → ℕ
header_len _ = 1 + 8

-- `Authority::len`
abbrev pub authority_len : Authority → ℕ
authority_len (address _) = 1 + 32
authority_len _ = 1

-- `RegistryRecord::len`
abbrev pub record_len : RegistryRecord → ℕ
record_len r = 1 + authority_len r.authority + 8

abbrev lifecycle_checks_len : Option (List (HookableLifecycleEvent × ExternalCheckResult)) → ℕ
lifecycle_checks_len none = 0
lifecycle_checks_len (some checks) = 4 + length checks * (1 + 4)

-- `ExternalRegistryRecord::len`
abbrev pub external_record_len : ExternalRegistryRecord → ℕ
external_record_len r =
    1
    + authority_len r.authority
    + 1
    + 8
    + 1
    + 1
    + lifecycle_checks_len r.lifecycle_checks
    + (if is_some r.data_offset then 8 else 0)
    + (if is_some r.data_len then 8 else 0)

abbrev pub records_len : List RegistryRecord → ℕ
records_len [] = 0
records_len (r ∷ rs) = record_len r + records_len rs

abbrev pub external_records_len : List ExternalRegistryRecord → ℕ
external_records_len [] = 0
external_records_len (r ∷ rs) = external_record_len r + external_records_len rs

-- `PluginRegistryV1::len`
abbrev pub registry_len : PluginRegistryV1 → ℕ
registry_len r = 1 + 4 + 4 + records_len r.registry + external_records_len r.external_registry
