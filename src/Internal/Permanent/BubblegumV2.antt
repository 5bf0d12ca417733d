-- ===== src/Internal/Permanent/BubblegumV2.antt =====
-- programs/mpl-core/src/plugins/internal/permanent/bubblegum_v2.rs.
use mpl_core.Prelude.{none, some, if◌then◌else◌, is_some, List, [], ◌∷◌}
use mpl_core.Prelude.{any}
use mpl_core.Error.{Result}
use mpl_core.Plugins.{Plugin, PluginType, plugin_type, plugin_type_eq}
use mpl_core.Lifecycle.{
  PluginValidationContext, PluginValidation, default_validation, ValidationResult, reject, abstain,
}

-- `BubblegumV2::ALLOW_LIST`
abbrev pub allow_list : List PluginType
allow_list =
    PluginType.attributes ∷ PluginType.permanent_freeze_delegate
    ∷ PluginType.permanent_transfer_delegate ∷ PluginType.permanent_burn_delegate
    ∷ PluginType.royalties ∷ PluginType.update_delegate ∷ []

abbrev pub validate_add_plugin : PluginValidationContext → Result ValidationResult
validate_add_plugin ctx = elim ctx.target_plugin [
  | some target ↦
      if plugin_type_eq (plugin_type target) PluginType.bubblegum_v2
      then reject
      else if is_some ctx.asset_info
      then abstain
      else if any (λ t. plugin_type_eq t (plugin_type target)) allow_list
      then abstain
      else reject
  | none ↦ abstain
]

abbrev pub validate_remove_plugin : PluginValidationContext → Result ValidationResult
validate_remove_plugin ctx = elim ctx.target_plugin [
  | some Plugin.bubblegum_v2 ↦ reject
  | _ ↦ abstain
]

abbrev pub validate_add_external_plugin_adapter : PluginValidationContext → Result ValidationResult
validate_add_external_plugin_adapter ctx = if is_some ctx.asset_info then abstain else reject

unfoldable pub validation : PluginValidation
validation = record default_validation {
  validate_add_plugin = validate_add_plugin;
  validate_remove_plugin = validate_remove_plugin;
  validate_add_external_plugin_adapter = validate_add_external_plugin_adapter;
}
