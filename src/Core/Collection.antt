-- ===== src/Core/Collection.antt =====
-- programs/mpl-core/src/state/collection.rs: `CollectionV1::check_*` and `CollectionV1::validate_*`.
use mpl_core.Prelude.{Option, none, some, ◌&&◌, ◌==◌, if◌then◌else◌}
use mpl_core.Error.{Result, fail, invalid_plugin}
use mpl_core.State.{CollectionV1, AccountInfo, Authority, authority_eq}
use mpl_core.Plugins.{Plugin}
use mpl_core.External.{ExternalPluginAdapter}
use mpl_core.Host.{Host}
use mpl_core.Lifecycle.{
  CheckResult, can_approve, ValidationResult, approve, abstain, plugin_manager,
}

-- The signature of the validations.
abbrev pub CollectionFn : Type 0
CollectionFn =
    CollectionV1
    → AccountInfo
    → Option Plugin
    → Option ExternalPluginAdapter
    → Result ValidationResult

-- The checks of create, update, execute, and of adding, removing, approving and revoking plugins.
abbrev pub check_core : CheckResult
check_core = can_approve

-- The checks of transfer, burn, compress, decompress and of updating plugins.
abbrev pub check_passive : CheckResult
check_passive = CheckResult.none

-- `validate_create`, `validate_update`, `validate_add_external_plugin_adapter` and
-- `validate_remove_external_plugin_adapter`: the update authority approves.
unfoldable pub validate_authority : CollectionFn
validate_authority c authority _ _ =
    if authority.key == c.update_authority then approve else abstain

-- `validate_transfer`, `validate_burn`, `validate_compress`, `validate_decompress`,
-- `validate_execute` and the validations of updates of plugins.
unfoldable pub validate_passive : CollectionFn
validate_passive c authority _ _ = abstain

-- The validations of adding and removing a plugin, and of approving and revoking its authority.
unfoldable pub validate_plugin : ⦃host : Host⦄ → CollectionFn
validate_plugin c authority none _ = fail invalid_plugin
validate_plugin c authority (some plugin) _ =
    if authority.key == c.update_authority
      && authority_eq (plugin_manager plugin) Authority.update_authority
    then approve
    else abstain
