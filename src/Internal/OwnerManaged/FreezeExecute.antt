-- ===== src/Internal/OwnerManaged/FreezeExecute.antt =====
-- programs/mpl-core/src/plugins/internal/owner_managed/freeze_execute.rs.
use mpl_core.Prelude.{Bool, Option, none, some, if◌then◌else◌}
use mpl_core.Error.{Result}
use mpl_core.Plugins.{Plugin, FreezeExecute}
use mpl_core.Lifecycle.{
  PluginValidationContext, PluginValidation, default_validation, ValidationResult, approve, reject,
  abstain, is_resolved,
}

-- The target is a plugin of this type, and frozen.
abbrev target_frozen : PluginValidationContext → Option Bool
target_frozen ctx = elim ctx.target_plugin [
  | some (Plugin.freeze_execute freeze) ↦ some freeze.frozen
  | _ ↦ none
]

abbrev pub validate_approve_plugin_authority :
    FreezeExecute → PluginValidationContext → Result ValidationResult
validate_approve_plugin_authority self ctx = elim (target_frozen ctx) [
  | some frozen ↦ if frozen then reject else abstain
  | none ↦ abstain
]

abbrev pub validate_revoke_plugin_authority :
    FreezeExecute → PluginValidationContext → Result ValidationResult
validate_revoke_plugin_authority self ctx = elim (target_frozen ctx) [
  | some frozen ↦ if frozen then reject else if is_resolved ctx then approve else abstain
  | none ↦ abstain
]

abbrev pub validate_execute : FreezeExecute → PluginValidationContext → Result ValidationResult
validate_execute self ctx = if self.frozen then reject else abstain

abbrev pub validate_remove_plugin :
    FreezeExecute → PluginValidationContext → Result ValidationResult
validate_remove_plugin self ctx = elim (target_frozen ctx) [
  | some frozen ↦ if frozen then reject else abstain
  | none ↦ abstain
]

unfoldable pub validation : FreezeExecute → PluginValidation
validation self = record default_validation {
  validate_execute = validate_execute self;
  validate_approve_plugin_authority = validate_approve_plugin_authority self;
  validate_revoke_plugin_authority = validate_revoke_plugin_authority self;
  validate_remove_plugin = validate_remove_plugin self;
}
