-- ===== src/Core/Asset.antt =====
-- programs/mpl-core/src/state/asset.rs: `AssetV1::check_*` and `AssetV1::validate_*`.
use mpl_core.Prelude.{Bool, Option, none, some, ◌&&◌, ◌||◌, ◌==◌, if◌then◌else◌}
use mpl_core.Error.{Result, fail, invalid_plugin}
use mpl_core.State.{
  AssetV1, AccountInfo, Authority, authority_eq, UpdateAuthority, update_authority_eq,
  update_authority_key, collection,
}
use mpl_core.Plugins.{Plugin}
use mpl_core.External.{ExternalPluginAdapter}
use mpl_core.Host.{Host}
use mpl_core.Lifecycle.{
  CheckResult, can_approve, ValidationResult, approve, abstain, plugin_manager,
}

-- The signature of the validations.
abbrev pub AssetFn : Type 0
AssetFn =
    AssetV1 → AccountInfo → Option Plugin → Option ExternalPluginAdapter → Result ValidationResult

-- `check_create`, and the checks of every other event but the two below: the asset can approve.
abbrev pub check_core : CheckResult
check_core = can_approve

-- `check_update_plugin` and `check_update_external_plugin_adapter`
abbrev pub check_update_plugin : CheckResult
check_update_plugin = CheckResult.none

-- `self.update_authority == UpdateAuthority::Address(*authority_info.key)`
abbrev pub is_update_authority : AssetV1 → AccountInfo → Bool
is_update_authority asset authority =
    update_authority_eq asset.update_authority (UpdateAuthority.address authority.key)

unfoldable pub validate_create : AssetFn
validate_create asset authority _ _ = elim asset.update_authority [
  | collection _ ↦ abstain
  | _ ↦ approve
]

module _ ⦃host : Host⦄ where
  -- The plugin's manager is the signer: the owner, or the update authority of an asset outside
  -- collections.
  abbrev pub manages : AssetV1 → AccountInfo → Plugin → Bool
  manages asset authority plugin =
      authority.key == asset.owner && authority_eq (plugin_manager plugin) Authority.owner
      || is_update_authority asset authority
        && authority_eq (plugin_manager plugin) Authority.update_authority

  -- `validate_add_plugin` and `validate_remove_plugin`
  unfoldable pub validate_change_plugin : AssetFn
  validate_change_plugin asset authority none _ = fail invalid_plugin
  validate_change_plugin asset authority (some plugin) _ =
      if manages asset authority plugin then approve else abstain

  -- `validate_approve_plugin_authority` and `validate_revoke_plugin_authority`
  unfoldable pub validate_plugin_authority : AssetFn
  validate_plugin_authority asset authority none _ = abstain
  validate_plugin_authority asset authority (some plugin) _ =
      if manages asset authority plugin then approve else abstain

-- `validate_update_plugin` and `validate_update_external_plugin_adapter`
unfoldable pub validate_update_plugin : AssetFn
validate_update_plugin asset authority _ _ = abstain

unfoldable pub validate_update : AssetFn
validate_update asset authority _ _ =
    if authority.key == update_authority_key asset.update_authority then approve else abstain

-- `validate_burn`, `validate_transfer`, `validate_compress`, `validate_decompress` and
-- `validate_execute`: the owner approves.
unfoldable pub validate_owner : AssetFn
validate_owner asset authority _ _ = if authority.key == asset.owner then approve else abstain

-- `validate_add_external_plugin_adapter` and `validate_remove_external_plugin_adapter`
unfoldable pub validate_change_external : AssetFn
validate_change_external asset authority _ _ =
    if is_update_authority asset authority then approve else abstain
