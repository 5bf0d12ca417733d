-- ===== src/Permissions/Collection.antt =====
-- programs/mpl-core/src/utils/mod.rs: `validate_collection_permissions`.
use mpl_core.Prelude.{Option, none, some, List, [], ◌∷◌, ◌&&◌, not}
use mpl_core.Error.{Result, ok, panic, custom, guard, invalid_authority, ◌>>=◌, ◌>>◌}
use mpl_core.State.{Pubkey, Authority, AccountInfo, CollectionV1, collection_v1}
use mpl_core.Plugins.{Plugin, PluginType}
use mpl_core.External.{ExternalPluginAdapter, HookableLifecycleEvent}
use mpl_core.Registry.Evaluate.{check_registry}
use mpl_core.Host.{Host}
use mpl_core.Loading.{collection_account, CoreData, fetch_core_data}
use mpl_core.Lifecycle.{CheckResult, ValidationResult, Inputs, Flags, tally, no_flags, abstain}
use mpl_core.Lifecycle.Validate.{PluginFn, ExternalFn, validate_plugin_checks}
use mpl_core.Core.Collection.{CollectionFn}
use mpl_core.Permissions.Resolve.{resolve_pubkey_to_authorities_collection}
use mpl_core.Permissions.Asset.{records_of, add_external_checks, ask_externals, is_well_formed}

module _ ⦃host : Host⦄ where
  pub record CollectionEvent : Type 0 where
    pub collection_check_fp : CheckResult
    pub plugin_check_fp : PluginType → CheckResult
    pub collection_validate_fp : CollectionFn
    pub plugin_validate_fp : PluginFn
    pub external_validate_fp : Option ExternalFn
    pub hookable_lifecycle_event : Option HookableLifecycleEvent

  pub record CollectionRequest : Type 0 where
    pub accounts : List AccountInfo
    pub authority_info : AccountInfo
    pub collection : AccountInfo
    pub new_authority : Option Pubkey
    pub new_plugin : Option Plugin
    pub new_plugin_authority : Option Authority
    pub new_external_plugin_adapter : Option ExternalPluginAdapter
    pub new_external_plugin_adapter_authority : Option Authority

  abbrev pub collection_inputs : CollectionRequest → List Authority → Inputs
  collection_inputs request resolved = record {
    accounts = request.accounts;
    authority = request.authority_info;
    new_owner = none;
    new_asset_authority = none;
    new_collection_authority = request.new_authority;
    new_plugin = request.new_plugin;
    new_plugin_authority = request.new_plugin_authority;
    new_external_plugin = request.new_external_plugin_adapter;
    new_external_plugin_authority = request.new_external_plugin_adapter_authority;
    asset = none;
    collection = some request.collection;
    resolved_authorities = resolved;
  }

  -- `if matches!(core_check, (.., CanApprove | CanReject | CanForceApprove)) { .. }`
  abbrev pub ask_core : CollectionEvent → CollectionRequest → CollectionV1 → Result ValidationResult
  ask_core event request collection = elim event.collection_check_fp [
    | CheckResult.none ↦ abstain
    | _ ↦
        event.collection_validate_fp collection request.authority_info request.new_plugin
          request.new_external_plugin_adapter
  ]

  -- `if rejected || !approved { return Err(..) }`
  abbrev pub decide_collection : Option Flags → Result (Unit {0})
  decide_collection none = ok tt
  decide_collection (some flags) =
      guard (not flags.was_rejected && flags.was_approved) (custom invalid_authority)

  -- `validate_collection_permissions`
  unfoldable pub validate_collection_permissions :
      CollectionEvent → CollectionRequest → Result (CoreData CollectionV1)
  validate_collection_permissions event request = do
    guard (is_well_formed event.external_validate_fp event.hookable_lifecycle_event) panic
    core ← fetch_core_data collection_account request.collection
    resolved ← resolve_pubkey_to_authorities_collection request.authority_info request.collection
    external ←
        add_external_checks event.hookable_lifecycle_event collection_v1 request.collection core.2
          []
    let inputs = collection_inputs request resolved
    let checks = check_registry (records_of core.2) collection_v1 event.plugin_check_fp []
    flags ←
        tally
          (ask_core event request core.0
            ∷ validate_plugin_checks inputs event.plugin_validate_fp checks
            ∷ ask_externals event.external_validate_fp inputs external
            ∷ [])
          no_flags
    decide_collection flags
    ok core
