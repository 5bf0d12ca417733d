-- ===== src/Internal/Permanent/Delegates.antt =====
-- programs/mpl-core/src/plugins/internal/permanent: permanent_transfer_delegate.rs and
-- permanent_burn_delegate.rs.
use mpl_core.Prelude.{Bool, false, none, some, if◌then◌else◌}
use mpl_core.Error.{Result}
use mpl_core.Plugins.{PluginType, plugin_type, plugin_type_eq}
use mpl_core.Lifecycle.{
  PluginValidationContext, PluginValidation, default_validation, ValidationResult, reject, abstain,
  force_approve, is_resolved,
}

-- The target is a plugin of the type named: it can only be added at creation.
abbrev pub targets : PluginType → PluginValidationContext → Bool
targets own ctx = elim ctx.target_plugin [
  | some plugin ↦ plugin_type_eq (plugin_type plugin) own
  | none ↦ false
]

abbrev pub reject_own : PluginType → PluginValidationContext → Result ValidationResult
reject_own own ctx = if targets own ctx then reject else abstain

-- The delegate's answer to its own event, which overrides every rejection.
abbrev pub validate_delegate : PluginValidationContext → Result ValidationResult
validate_delegate ctx = if is_resolved ctx then force_approve else abstain

unfoldable pub transfer_delegate_validation : PluginValidation
transfer_delegate_validation = record default_validation {
  validate_add_plugin = reject_own PluginType.permanent_transfer_delegate;
  validate_transfer = validate_delegate;
}

unfoldable pub burn_delegate_validation : PluginValidation
burn_delegate_validation = record default_validation {
  validate_add_plugin = reject_own PluginType.permanent_burn_delegate;
  validate_burn = validate_delegate;
}
