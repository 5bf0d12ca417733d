-- ===== src/Internal/AuthorityManaged/Groups.antt =====
-- programs/mpl-core/src/plugins/internal/authority_managed/groups.rs.
use mpl_core.Prelude.{Bool, true, false, ◌&&◌, not, if◌then◌else◌, is_some, List, ℕ, []}
use mpl_core.Error.{Result}
use mpl_core.State.{asset_v1, collection_v1}
use mpl_core.Plugins.{Groups}
use mpl_core.Lifecycle.{
  PluginValidationContext, PluginValidation, default_validation, ValidationResult, reject, abstain,
}

-- Whether the account that holds the plugin is the one being burned.
abbrev pub member_is_burn_target : PluginValidationContext → Bool
member_is_burn_target ctx = elim ctx.self_key [
  | asset_v1 ↦ true
  | collection_v1 ↦ not (is_some ctx.asset_info)
  | _ ↦ false
]

abbrev is_empty : List ℕ → Bool
is_empty [] = true
is_empty _ = false

abbrev pub validate_burn : Groups → PluginValidationContext → Result ValidationResult
validate_burn self ctx =
    if member_is_burn_target ctx && not (is_empty self.groups) then reject else abstain

unfoldable pub validation : Groups → PluginValidation
validation self = record default_validation { validate_burn = validate_burn self }
