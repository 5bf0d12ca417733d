-- ===== src/Adapters/Dispatch.antt =====
-- programs/mpl-core/src/plugins/external_plugin_adapters.rs: `ExternalPluginAdapter::validate_*`, and
-- the small adapters of external/: lifecycle_hook.rs, app_data.rs, linked_lifecycle_hook.rs,
-- linked_app_data.rs and data_section.rs.
use mpl_core.Prelude.{Bool, some, none, ◌&&◌, is_some, if◌then◌else◌}
use mpl_core.Error.{Result, ok, err, panic, ok_or, custom, invalid_authority, ◌>>=◌}
use mpl_core.External.{ExternalPluginAdapter, adapter_type, external_type_eq}
use mpl_core.Host.{Host}
use mpl_core.Lifecycle.{
  PluginValidationContext, PluginValidation, default_validation, ValidationResult, approved,
  rejected, pass, force_approved, abstain, reject, contains_authority,
}
use mpl_core.Adapters.Oracle as Oracle
use mpl_core.Adapters.AgentIdentity as AgentIdentity

-- `LinkedAppData::validate_create`: on collections only.
abbrev pub linked_app_data_validation : PluginValidation
linked_app_data_validation = record default_validation {
  validate_create = λ ctx. if is_some ctx.asset_info then reject else abstain;
}

-- A data section is made and updated by its parent only.
abbrev pub data_section_validation : PluginValidation
data_section_validation = record default_validation {
  validate_create = λ _. reject;
  validate_add_external_plugin_adapter = λ _. reject;
  validate_update_external_plugin_adapter = λ _. reject;
}

-- The target is an external plugin adapter of this type.
abbrev pub targets_self : ExternalPluginAdapter → PluginValidationContext → Bool
targets_self plugin ctx = elim ctx.target_external_plugin [
  | some target ↦ external_type_eq (adapter_type target) (adapter_type plugin)
  | none ↦ Bool.false
]

-- How `validate_update_external_plugin_adapter` joins its own answer with the adapter's.
abbrev pub join_results : ValidationResult → ValidationResult → Result ValidationResult
join_results approved approved = ok approved
join_results approved rejected = ok rejected
join_results rejected approved = ok rejected
join_results rejected rejected = ok rejected
join_results pass result = ok result
join_results force_approved _ = err panic
join_results base pass = ok base
join_results _ force_approved = err panic

module _ ⦃host : Host⦄ where
  -- The adapter behind an `ExternalPluginAdapter`, which every `validate_*` matches on.
  unfoldable pub inner : ExternalPluginAdapter → PluginValidation
  inner (ExternalPluginAdapter.lifecycle_hook _) = default_validation
  inner (ExternalPluginAdapter.oracle oracle) = Oracle.validation oracle
  inner (ExternalPluginAdapter.app_data _) = default_validation
  inner (ExternalPluginAdapter.linked_lifecycle_hook _) = default_validation
  inner (ExternalPluginAdapter.linked_app_data _) = linked_app_data_validation
  inner (ExternalPluginAdapter.data_section _) = data_section_validation
  inner (ExternalPluginAdapter.agent_identity _) = AgentIdentity.validation

  unfoldable pub validate_create :
      ExternalPluginAdapter → PluginValidationContext → Result ValidationResult
  validate_create plugin = (inner plugin).validate_create

  unfoldable pub validate_update :
      ExternalPluginAdapter → PluginValidationContext → Result ValidationResult
  validate_update plugin = (inner plugin).validate_update

  unfoldable pub validate_burn :
      ExternalPluginAdapter → PluginValidationContext → Result ValidationResult
  validate_burn plugin = (inner plugin).validate_burn

  unfoldable pub validate_transfer :
      ExternalPluginAdapter → PluginValidationContext → Result ValidationResult
  validate_transfer plugin = (inner plugin).validate_transfer

  unfoldable pub validate_execute :
      ExternalPluginAdapter → PluginValidationContext → Result ValidationResult
  validate_execute plugin = (inner plugin).validate_execute

  unfoldable pub validate_add_external_plugin_adapter :
      ExternalPluginAdapter → PluginValidationContext → Result ValidationResult
  validate_add_external_plugin_adapter plugin = (inner plugin).validate_add_external_plugin_adapter

  unfoldable pub validate_update_external_plugin_adapter :
      ExternalPluginAdapter → PluginValidationContext → Result ValidationResult
  validate_update_external_plugin_adapter plugin ctx = do
    authorities ← ok_or ctx.resolved_authorities (custom invalid_authority)
    let base =
        if contains_authority authorities ctx.self_authority && targets_self plugin ctx
        then approved
        else pass
    result ← (inner plugin).validate_update_external_plugin_adapter ctx
    join_results base result
