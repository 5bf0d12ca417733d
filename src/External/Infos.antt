-- ===== src/External/Infos.antt =====
-- programs/mpl-core/src/plugins/external_plugin_adapters.rs and external/*.rs: what an external plugin
-- adapter is created from.
use mpl_core.Prelude.{List, Option, none, some}
use mpl_core.State.{Pubkey, Text, Authority}
use mpl_core.External.Types.{
  HookableLifecycleEvent, ExternalCheckResult, ExternalPluginAdapterType, ExtraAccount,
  ExternalPluginAdapterSchema, binary, LinkedDataKey, ValidationResultsOffset, no_offset,
  ExternalPluginAdapterKey, ExternalPluginAdapter,
}

abbrev pub LifecycleChecks : Type 0
LifecycleChecks = List (HookableLifecycleEvent × ExternalCheckResult)

-- `LifecycleHookInitInfo` and `LinkedLifecycleHookInitInfo`, which have the same fields.
pub record LifecycleHookInitInfo : Type 0 where
  pub hooked_program : Pubkey
  pub init_plugin_authority : Option Authority
  pub lifecycle_checks : LifecycleChecks
  pub extra_accounts : Option (List ExtraAccount)
  pub data_authority : Option Authority
  pub schema : Option ExternalPluginAdapterSchema

-- `AppDataInitInfo` and `LinkedAppDataInitInfo`, which have the same fields.
pub record AppDataInitInfo : Type 0 where
  pub data_authority : Authority
  pub init_plugin_authority : Option Authority
  pub schema : Option ExternalPluginAdapterSchema

-- `OracleInitInfo`
pub record OracleInitInfo : Type 0 where
  pub base_address : Pubkey
  pub init_plugin_authority : Option Authority
  pub lifecycle_checks : LifecycleChecks
  pub base_address_config : Option ExtraAccount
  pub results_offset : Option ValidationResultsOffset

-- `DataSectionInitInfo`
pub record DataSectionInitInfo : Type 0 where
  pub parent_key : LinkedDataKey
  pub schema : ExternalPluginAdapterSchema

-- `AgentIdentityInitInfo`
pub record AgentIdentityInitInfo : Type 0 where
  pub uri : Text
  pub init_plugin_authority : Option Authority
  pub lifecycle_checks : LifecycleChecks

-- `ExternalPluginAdapterInitInfo`
pub data ExternalPluginAdapterInitInfo : Type 0 where
  lifecycle_hook linked_lifecycle_hook : LifecycleHookInitInfo → ExternalPluginAdapterInitInfo
  oracle : OracleInitInfo → ExternalPluginAdapterInitInfo
  app_data linked_app_data : AppDataInitInfo → ExternalPluginAdapterInitInfo
  data_section : DataSectionInitInfo → ExternalPluginAdapterInitInfo
  agent_identity : AgentIdentityInitInfo → ExternalPluginAdapterInitInfo

-- `ExternalPluginAdapterType::from(&ExternalPluginAdapterInitInfo)`
abbrev pub init_type : ExternalPluginAdapterInitInfo → ExternalPluginAdapterType
init_type (ExternalPluginAdapterInitInfo.lifecycle_hook _) =
    ExternalPluginAdapterType.lifecycle_hook
init_type (ExternalPluginAdapterInitInfo.oracle _) = ExternalPluginAdapterType.oracle
init_type (ExternalPluginAdapterInitInfo.app_data _) = ExternalPluginAdapterType.app_data
init_type (ExternalPluginAdapterInitInfo.linked_lifecycle_hook _) =
    ExternalPluginAdapterType.linked_lifecycle_hook
init_type (ExternalPluginAdapterInitInfo.linked_app_data _) =
    ExternalPluginAdapterType.linked_app_data
init_type (ExternalPluginAdapterInitInfo.data_section _) = ExternalPluginAdapterType.data_section
init_type (ExternalPluginAdapterInitInfo.agent_identity _) =
    ExternalPluginAdapterType.agent_identity

-- `option.unwrap_or(default)`
abbrev pub unwrap_or {ℓ} : {A : Type ℓ} → Option A → A → A
unwrap_or none default = default
unwrap_or (some a) default = a

-- `ExternalPluginAdapter::from(&ExternalPluginAdapterInitInfo)`; the default schema is binary.
abbrev pub adapter_of : ExternalPluginAdapterInitInfo → ExternalPluginAdapter
adapter_of (ExternalPluginAdapterInitInfo.lifecycle_hook info) =
    ExternalPluginAdapter.lifecycle_hook (record {
      hooked_program = info.hooked_program;
      extra_accounts = info.extra_accounts;
      data_authority = info.data_authority;
      schema = unwrap_or info.schema binary;
    })
adapter_of (ExternalPluginAdapterInitInfo.linked_lifecycle_hook info) =
    ExternalPluginAdapter.linked_lifecycle_hook (record {
      hooked_program = info.hooked_program;
      extra_accounts = info.extra_accounts;
      data_authority = info.data_authority;
      schema = unwrap_or info.schema binary;
    })
adapter_of (ExternalPluginAdapterInitInfo.oracle info) = ExternalPluginAdapter.oracle (record {
  base_address = info.base_address;
  base_address_config = info.base_address_config;
  results_offset = unwrap_or info.results_offset no_offset;
})
adapter_of (ExternalPluginAdapterInitInfo.app_data info) =
    ExternalPluginAdapter.app_data
      (record { data_authority = info.data_authority; schema = unwrap_or info.schema binary })
adapter_of (ExternalPluginAdapterInitInfo.linked_app_data info) =
    ExternalPluginAdapter.linked_app_data
      (record { data_authority = info.data_authority; schema = unwrap_or info.schema binary })
adapter_of (ExternalPluginAdapterInitInfo.data_section info) =
    ExternalPluginAdapter.data_section
      (record { parent_key = info.parent_key; schema = info.schema })
adapter_of (ExternalPluginAdapterInitInfo.agent_identity info) =
    ExternalPluginAdapter.agent_identity (record { uri = info.uri })

-- `ExternalPluginAdapterKey::from(&ExternalPluginAdapterInitInfo)`
abbrev pub key_of : ExternalPluginAdapterInitInfo → ExternalPluginAdapterKey
key_of (ExternalPluginAdapterInitInfo.lifecycle_hook info) =
    ExternalPluginAdapterKey.lifecycle_hook info.hooked_program
key_of (ExternalPluginAdapterInitInfo.linked_lifecycle_hook info) =
    ExternalPluginAdapterKey.linked_lifecycle_hook info.hooked_program
key_of (ExternalPluginAdapterInitInfo.oracle info) =
    ExternalPluginAdapterKey.oracle info.base_address
key_of (ExternalPluginAdapterInitInfo.app_data info) =
    ExternalPluginAdapterKey.app_data info.data_authority
key_of (ExternalPluginAdapterInitInfo.linked_app_data info) =
    ExternalPluginAdapterKey.linked_app_data info.data_authority
key_of (ExternalPluginAdapterInitInfo.data_section info) =
    ExternalPluginAdapterKey.data_section info.parent_key
key_of (ExternalPluginAdapterInitInfo.agent_identity _) = ExternalPluginAdapterKey.agent_identity
