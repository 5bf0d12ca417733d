-- ===== src/Internal/AuthorityManaged/Blockers.antt =====
-- programs/mpl-core/src/plugins/internal/authority_managed: add_blocker.rs, immutable_metadata.rs,
-- attributes.rs and master_edition.rs.
use mpl_core.Prelude.{none, some, ◌||◌, if◌then◌else◌}
use mpl_core.Error.{Result}
use mpl_core.State.{Authority, authority_eq}
use mpl_core.Plugins.{PluginType, plugin_type, plugin_type_eq}
use mpl_core.Host.{Host}
use mpl_core.Lifecycle.{
  PluginValidationContext, PluginValidation, default_validation, ValidationResult, reject, abstain,
}
use mpl_core.Lifecycle.{plugin_manager}

module _ ⦃host : Host⦄ where
  -- `AddBlocker::validate_add_plugin`
  abbrev pub validate_add_plugin : PluginValidationContext → Result ValidationResult
  validate_add_plugin ctx = elim ctx.target_plugin [
    | some plugin ↦
        if authority_eq (plugin_manager plugin) Authority.owner
          || plugin_type_eq (plugin_type plugin) PluginType.add_blocker
        then abstain
        else reject
    | none ↦ reject
  ]

  unfoldable pub add_blocker_validation : PluginValidation
  add_blocker_validation = record default_validation { validate_add_plugin = validate_add_plugin }

-- `ImmutableMetadata`: every update is rejected.
unfoldable pub immutable_metadata_validation : PluginValidation
immutable_metadata_validation = record default_validation { validate_update = λ _. reject }

-- `Attributes` and `MasterEdition` keep the trait's default methods.
unfoldable pub passive_validation : PluginValidation
passive_validation = default_validation
