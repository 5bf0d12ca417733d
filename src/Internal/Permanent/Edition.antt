-- ===== src/Internal/Permanent/Edition.antt =====
-- programs/mpl-core/src/plugins/internal/permanent/edition.rs.
use mpl_core.Prelude.{some}
use mpl_core.Error.{Result}
use mpl_core.Plugins.{Plugin, Edition}
use mpl_core.Lifecycle.{
  PluginValidationContext, PluginValidation, default_validation, ValidationResult, reject, abstain,
}

-- `validate_add_plugin` and `validate_remove_plugin`, which have the same body.
abbrev pub reject_edition : PluginValidationContext → Result ValidationResult
reject_edition ctx = elim ctx.target_plugin [ some (Plugin.edition _) ↦ reject | _ ↦ abstain ]

unfoldable pub validation : Edition → PluginValidation
validation self = record default_validation {
  validate_add_plugin = reject_edition;
  validate_remove_plugin = reject_edition;
}
