-- ===== src/Internal/OwnerManaged/FreezeDelegate.antt =====
-- programs/mpl-core/src/plugins/internal/owner_managed/freeze_delegate.rs.
use mpl_core.Prelude.{Bool, Option, none, some, ◌&&◌, if◌then◌else◌, is_some}
use mpl_core.Error.{Result}
use mpl_core.Plugins.{Plugin, FreezeDelegate}
use mpl_core.Lifecycle.{
  PluginValidationContext, PluginValidation, default_validation, ValidationResult, approve, reject,
  abstain, is_resolved,
}

-- The target is a plugin of this type, and frozen.
abbrev target_frozen : PluginValidationContext → Option Bool
target_frozen ctx = elim ctx.target_plugin [
  | some (Plugin.freeze_delegate freeze) ↦ some freeze.frozen
  | _ ↦ none
]

abbrev pub validate_approve_plugin_authority :
    FreezeDelegate → PluginValidationContext → Result ValidationResult
validate_approve_plugin_authority self ctx = elim (target_frozen ctx) [
  | some frozen ↦ if frozen then reject else abstain
  | none ↦ abstain
]

abbrev pub validate_revoke_plugin_authority :
    FreezeDelegate → PluginValidationContext → Result ValidationResult
validate_revoke_plugin_authority self ctx = elim (target_frozen ctx) [
  | some frozen ↦ if frozen then reject else if is_resolved ctx then approve else abstain
  | none ↦ abstain
]

-- `validate_burn` and `validate_transfer`, which have the same body.
abbrev pub validate_move : FreezeDelegate → PluginValidationContext → Result ValidationResult
validate_move self ctx = if self.frozen then reject else abstain

abbrev pub validate_remove_plugin :
    FreezeDelegate → PluginValidationContext → Result ValidationResult
validate_remove_plugin self ctx =
    if is_some ctx.target_plugin && self.frozen then reject else abstain

unfoldable pub validation : FreezeDelegate → PluginValidation
validation self = record default_validation {
  validate_burn = validate_move self;
  validate_transfer = validate_move self;
  validate_approve_plugin_authority = validate_approve_plugin_authority self;
  validate_revoke_plugin_authority = validate_revoke_plugin_authority self;
  validate_remove_plugin = validate_remove_plugin self;
}
