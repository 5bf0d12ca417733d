-- ===== src/Internal/Permanent/Freezes.antt =====
-- programs/mpl-core/src/plugins/internal/permanent: permanent_freeze_delegate.rs and
-- permanent_freeze_execute.rs.
use mpl_core.Prelude.{some, ◌&&◌, if◌then◌else◌, is_some}
use mpl_core.Error.{Result}
use mpl_core.Plugins.{Plugin, PluginType, PermanentFreezeDelegate, PermanentFreezeExecute}
use mpl_core.Lifecycle.{
  PluginValidationContext, PluginValidation, default_validation, ValidationResult, reject, abstain,
}
use mpl_core.Internal.Permanent.Delegates.{reject_own}

-- `PermanentFreezeDelegate::validate_burn` and `validate_transfer`
abbrev pub validate_move :
    PermanentFreezeDelegate → PluginValidationContext → Result ValidationResult
validate_move self ctx = if self.frozen then reject else abstain

-- `PermanentFreezeDelegate::validate_remove_plugin`
abbrev pub validate_remove_delegate :
    PermanentFreezeDelegate → PluginValidationContext → Result ValidationResult
validate_remove_delegate self ctx =
    if is_some ctx.target_plugin && self.frozen then reject else abstain

unfoldable pub freeze_delegate_validation : PermanentFreezeDelegate → PluginValidation
freeze_delegate_validation self = record default_validation {
  validate_burn = validate_move self;
  validate_transfer = validate_move self;
  validate_add_plugin = reject_own PluginType.permanent_freeze_delegate;
  validate_remove_plugin = validate_remove_delegate self;
}

-- `PermanentFreezeExecute::validate_execute`
abbrev pub validate_execute :
    PermanentFreezeExecute → PluginValidationContext → Result ValidationResult
validate_execute self ctx = if self.frozen then reject else abstain

-- `PermanentFreezeExecute::validate_remove_plugin`
abbrev pub validate_remove_execute :
    PermanentFreezeExecute → PluginValidationContext → Result ValidationResult
validate_remove_execute self ctx = elim ctx.target_plugin [
  | some (Plugin.permanent_freeze_execute stored) ↦ if stored.frozen then reject else abstain
  | _ ↦ abstain
]

unfoldable pub freeze_execute_validation : PermanentFreezeExecute → PluginValidation
freeze_execute_validation self = record default_validation {
  validate_execute = validate_execute self;
  validate_add_plugin = reject_own PluginType.permanent_freeze_execute;
  validate_remove_plugin = validate_remove_execute self;
}
