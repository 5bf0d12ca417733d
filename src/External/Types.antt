-- ===== src/External/Types.antt =====
-- programs/mpl-core/src/plugins/external_plugin_adapters.rs, external/*.rs and lifecycle.rs: the
-- data of the external plugin adapters.
use mpl_core.Prelude.{ℕ, ◌/◌, ◌%◌, Bool, true, false, List, Option, ◌==◌}
use mpl_core.State.{Pubkey, Text, Authority}

-- `ExternalPluginAdapterType`
pub data ExternalPluginAdapterType : Type 0 where
  lifecycle_hook oracle app_data linked_lifecycle_hook : ExternalPluginAdapterType
  linked_app_data data_section agent_identity : ExternalPluginAdapterType

-- The discriminant, by which the derived `Eq` compares.
abbrev pub external_type_index : ExternalPluginAdapterType → ℕ
external_type_index lifecycle_hook = 0
external_type_index oracle = 1
external_type_index app_data = 2
external_type_index linked_lifecycle_hook = 3
external_type_index linked_app_data = 4
external_type_index data_section = 5
external_type_index agent_identity = 6

abbrev pub external_type_eq : ExternalPluginAdapterType → ExternalPluginAdapterType → Bool
external_type_eq a b = external_type_index a == external_type_index b

-- `HookableLifecycleEvent`
pub data HookableLifecycleEvent : Type 0 where
  create transfer burn update execute : HookableLifecycleEvent

abbrev pub event_eq : HookableLifecycleEvent → HookableLifecycleEvent → Bool
event_eq create create = true
event_eq transfer transfer = true
event_eq burn burn = true
event_eq update update = true
event_eq execute execute = true
event_eq _ _ = false

-- `ExternalCheckResult`, a `u32`.
pub record ExternalCheckResult : Type 0 where
  pub flags : ℕ

-- `ExternalCheckResultBits`, the flags bit by bit.
abbrev pub can_listen : ExternalCheckResult → Bool
can_listen r = r.flags % 2 == 1

abbrev pub can_approve : ExternalCheckResult → Bool
can_approve r = r.flags / 2 % 2 == 1

abbrev pub can_reject : ExternalCheckResult → Bool
can_reject r = r.flags / 4 % 2 == 1

-- `LinkedDataKey`
pub data LinkedDataKey : Type 0 where
  linked_lifecycle_hook : Pubkey → LinkedDataKey
  linked_app_data : Authority → LinkedDataKey

-- `ExternalPluginAdapterKey`
pub data ExternalPluginAdapterKey : Type 0 where
  lifecycle_hook oracle linked_lifecycle_hook : Pubkey → ExternalPluginAdapterKey
  app_data linked_app_data : Authority → ExternalPluginAdapterKey
  data_section : LinkedDataKey → ExternalPluginAdapterKey
  agent_identity : ExternalPluginAdapterKey

-- `ExternalPluginAdapterType::from(&ExternalPluginAdapterKey)`
abbrev pub key_type : ExternalPluginAdapterKey → ExternalPluginAdapterType
key_type (ExternalPluginAdapterKey.lifecycle_hook _) = ExternalPluginAdapterType.lifecycle_hook
key_type (ExternalPluginAdapterKey.oracle _) = ExternalPluginAdapterType.oracle
key_type (ExternalPluginAdapterKey.app_data _) = ExternalPluginAdapterType.app_data
key_type (ExternalPluginAdapterKey.linked_lifecycle_hook _) =
    ExternalPluginAdapterType.linked_lifecycle_hook
key_type (ExternalPluginAdapterKey.linked_app_data _) = ExternalPluginAdapterType.linked_app_data
key_type (ExternalPluginAdapterKey.data_section _) = ExternalPluginAdapterType.data_section
key_type ExternalPluginAdapterKey.agent_identity = ExternalPluginAdapterType.agent_identity

-- `Seed`
pub data Seed : Type 0 where
  collection owner recipient asset : Seed
  address : Pubkey → Seed
  bytes : List ℕ → Seed

-- `ExtraAccount`; each variant ends with `is_signer` and `is_writable`.
pub data ExtraAccount : Type 0 where
  preconfigured_program preconfigured_collection preconfigured_owner : Bool → Bool → ExtraAccount
  preconfigured_recipient preconfigured_asset : Bool → Bool → ExtraAccount
  custom_pda : List Seed → Option Pubkey → Bool → Bool → ExtraAccount
  address : Pubkey → Bool → Bool → ExtraAccount

-- `ExternalPluginAdapterSchema`
pub data ExternalPluginAdapterSchema : Type 0 where
  binary json msg_pack : ExternalPluginAdapterSchema

-- `LifecycleHook` and `LinkedLifecycleHook`, which have the same fields.
pub record LifecycleHook : Type 0 where
  pub hooked_program : Pubkey
  pub extra_accounts : Option (List ExtraAccount)
  pub data_authority : Option Authority
  pub schema : ExternalPluginAdapterSchema

-- `AppData` and `LinkedAppData`, which have the same fields.
pub record AppData : Type 0 where
  pub data_authority : Authority
  pub schema : ExternalPluginAdapterSchema

-- `DataSection`
pub record DataSection : Type 0 where
  pub parent_key : LinkedDataKey
  pub schema : ExternalPluginAdapterSchema

-- `ValidationResultsOffset`
pub data ValidationResultsOffset : Type 0 where
  no_offset anchor : ValidationResultsOffset
  custom : ℕ → ValidationResultsOffset

-- `ValidationResultsOffset::to_offset_usize`
abbrev pub to_offset_usize : ValidationResultsOffset → ℕ
to_offset_usize no_offset = 0
to_offset_usize anchor = 8
to_offset_usize (custom offset) = offset

-- `Oracle`
pub record Oracle : Type 0 where
  pub base_address : Pubkey
  pub base_address_config : Option ExtraAccount
  pub results_offset : ValidationResultsOffset

-- `ExternalValidationResult`
pub data ExternalValidationResult : Type 0 where
  approved rejected pass : ExternalValidationResult

-- `OracleValidation`
pub data OracleValidation : Type 0 where
  uninitialized : OracleValidation
  v1 : (create transfer burn update : ExternalValidationResult) → OracleValidation

-- `AgentIdentity`
pub record AgentIdentity : Type 0 where
  pub uri : Text

-- `ExternalPluginAdapter`
pub data ExternalPluginAdapter : Type 0 where
  lifecycle_hook linked_lifecycle_hook : LifecycleHook → ExternalPluginAdapter
  oracle : Oracle → ExternalPluginAdapter
  app_data linked_app_data : AppData → ExternalPluginAdapter
  data_section : DataSection → ExternalPluginAdapter
  agent_identity : AgentIdentity → ExternalPluginAdapter

-- `ExternalPluginAdapterType::from(&ExternalPluginAdapter)`
abbrev pub adapter_type : ExternalPluginAdapter → ExternalPluginAdapterType
adapter_type (ExternalPluginAdapter.lifecycle_hook _) = ExternalPluginAdapterType.lifecycle_hook
adapter_type (ExternalPluginAdapter.oracle _) = ExternalPluginAdapterType.oracle
adapter_type (ExternalPluginAdapter.app_data _) = ExternalPluginAdapterType.app_data
adapter_type (ExternalPluginAdapter.linked_lifecycle_hook _) =
    ExternalPluginAdapterType.linked_lifecycle_hook
adapter_type (ExternalPluginAdapter.linked_app_data _) = ExternalPluginAdapterType.linked_app_data
adapter_type (ExternalPluginAdapter.data_section _) = ExternalPluginAdapterType.data_section
adapter_type (ExternalPluginAdapter.agent_identity _) = ExternalPluginAdapterType.agent_identity
