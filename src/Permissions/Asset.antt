-- ===== src/Permissions/Asset.antt =====
-- programs/mpl-core/src/utils/mod.rs: `validate_asset_permissions`.
use mpl_core.Prelude.{Bool, true, false, Option, none, some, List, [], ◌∷◌, ◌==◌, if◌then◌else◌}
use mpl_core.Error.{
  Result, ok, err, panic, fail, custom, guard, invalid_authority, invalid_collection,
  missing_collection, no_approvals, ◌>>=◌, ◌>>◌,
}
use mpl_core.State.{Key, Authority, UpdateAuthority, AccountInfo, AssetV1, asset_v1, collection_v1}
use mpl_core.Plugins.{Plugin, PluginType}
use mpl_core.External.{ExternalPluginAdapter, HookableLifecycleEvent}
use mpl_core.Registry.{PluginRegistryV1, ExternalRegistryRecord, RegistryRecord}
use mpl_core.Registry.Evaluate.{CheckMap, ExternalCheckMap, check_registry, check_adapter_registry}
use mpl_core.Host.{Host}
use mpl_core.Loading.{load, asset_account, collection_account, CoreData, fetch_core_data}
use mpl_core.Lifecycle.{
  CheckResult, ValidationResult, force_approved, Inputs, tally, no_flags, Flags, abstain,
}
use mpl_core.Lifecycle.Validate.{
  PluginFn, ExternalFn, validate_plugin_checks, validate_external_plugin_adapter_checks,
}
use mpl_core.Core.Asset.{AssetFn}
use mpl_core.Core.Collection.{CollectionFn}
use mpl_core.Permissions.Resolve.{resolve_pubkey_to_authorities}

-- The plugins of one account, as the registry lists them; an account may have none.
abbrev pub records_of : Option PluginRegistryV1 → List RegistryRecord
records_of none = []
records_of (some r) = r.registry

abbrev pub external_records_of : Option PluginRegistryV1 → List ExternalRegistryRecord
external_records_of none = []
external_records_of (some r) = r.external_registry

module _ ⦃host : Host⦄ where
  -- The parameters that stay the same for one instruction: the checks and validations of its event.
  pub record AssetEvent : Type 0 where
    pub asset_check_fp : CheckResult
    pub collection_check_fp : CheckResult
    pub plugin_check_fp : PluginType → CheckResult
    pub asset_validate_fp : AssetFn
    pub collection_validate_fp : CollectionFn
    pub plugin_validate_fp : PluginFn
    pub external_validate_fp : Option ExternalFn
    pub hookable_lifecycle_event : Option HookableLifecycleEvent

  -- What the instruction passes in; `validate_asset_permissions` adds the resolved authorities.
  pub record AssetRequest : Type 0 where
    pub accounts : List AccountInfo
    pub authority_info : AccountInfo
    pub asset : AccountInfo
    pub collection : Option AccountInfo
    pub new_owner : Option AccountInfo
    pub new_authority : Option UpdateAuthority
    pub new_plugin : Option Plugin
    pub new_plugin_authority : Option Authority
    pub new_external_plugin_adapter : Option ExternalPluginAdapter
    pub new_external_plugin_adapter_authority : Option Authority

  abbrev pub asset_inputs : AssetRequest → List Authority → Inputs
  asset_inputs request resolved = record {
    accounts = request.accounts;
    authority = request.authority_info;
    new_owner = request.new_owner;
    new_asset_authority = request.new_authority;
    new_collection_authority = none;
    new_plugin = request.new_plugin;
    new_plugin_authority = request.new_plugin_authority;
    new_external_plugin = request.new_external_plugin_adapter;
    new_external_plugin_authority = request.new_external_plugin_adapter_authority;
    asset = some request.asset;
    collection = request.collection;
    resolved_authorities = resolved;
  }

  -- The collection that is passed in is the one that the asset is in.
  abbrev pub check_collection : UpdateAuthority → Option AccountInfo → Result (Unit {0})
  check_collection (UpdateAuthority.collection a) none = fail missing_collection
  check_collection (UpdateAuthority.collection a) (some info) =
      guard (info.key == a) (custom invalid_collection)
  check_collection _ none = ok tt
  check_collection _ (some _) = fail invalid_collection

  -- The registry of the collection that is passed in, if any.
  abbrev pub collection_registry : Option AccountInfo → Result (Option PluginRegistryV1)
  collection_registry none = ok none
  collection_registry (some info) = fetch_core_data collection_account info >>= λ core. ok core.2

  -- The collection's plugins first; the asset's override them.
  abbrev pub asset_checks :
      (PluginType → CheckResult) → Option PluginRegistryV1 → Option PluginRegistryV1 → CheckMap
  asset_checks check_fp of_collection of_asset =
      check_registry (records_of of_asset) asset_v1 check_fp
        (check_registry (records_of of_collection) collection_v1 check_fp [])

  -- `check_adapter_registry` of one account, where the event can be hooked.
  abbrev pub add_external_checks :
      Option HookableLifecycleEvent
      → Key
      → AccountInfo
      → Option PluginRegistryV1
      → ExternalCheckMap
      → Result ExternalCheckMap
  add_external_checks none key info registry checks = ok checks
  add_external_checks (some event) key info registry checks =
      check_adapter_registry (external_records_of registry) info key event checks

  abbrev pub collection_external_checks :
      Option HookableLifecycleEvent
      → Option AccountInfo
      → Option PluginRegistryV1
      → Result ExternalCheckMap
  collection_external_checks event none registry = ok []
  collection_external_checks event (some info) registry =
      add_external_checks event collection_v1 info registry []

  -- `if asset_check != CheckResult::None { asset_validate_fp(..) }`
  abbrev pub ask_asset : AssetEvent → AssetRequest → AssetV1 → Result ValidationResult
  ask_asset event request asset = elim event.asset_check_fp [
    | CheckResult.none ↦ abstain
    | _ ↦
        event.asset_validate_fp asset request.authority_info request.new_plugin
          request.new_external_plugin_adapter
  ]

  -- The same of the collection, where one is passed in.
  abbrev pub ask_collection_as :
      AssetEvent → AssetRequest → CheckResult → Option AccountInfo → Result ValidationResult
  ask_collection_as event request check none = abstain
  ask_collection_as event request CheckResult.none (some info) = abstain
  ask_collection_as event request _ (some info) = do
    core ← load collection_account info 0
    event.collection_validate_fp core request.authority_info request.new_plugin
        request.new_external_plugin_adapter

  abbrev pub ask_collection : AssetEvent → AssetRequest → Result ValidationResult
  ask_collection event request =
      ask_collection_as event request event.collection_check_fp request.collection

  -- The external plugin adapters' part; a forced approval of theirs would be `unreachable!`.
  abbrev pub never_forced : Result ValidationResult → Result ValidationResult
  never_forced answer =
      answer >>= λ result. elim result [ force_approved ↦ err panic | other ↦ ok other ]

  abbrev pub ask_externals : Option ExternalFn → Inputs → ExternalCheckMap → Result ValidationResult
  ask_externals none inputs checks = abstain
  ask_externals (some validate_fp) inputs checks =
      never_forced (validate_external_plugin_adapter_checks inputs validate_fp checks)

  -- The last test: a rejection, or no approval, denies the event.
  abbrev pub decide_asset : Option Flags → Result (Unit {0})
  decide_asset none = ok tt
  decide_asset (some flags) =
      if flags.was_rejected
      then fail invalid_authority
      else if flags.was_approved
      then ok tt
      else fail no_approvals

  -- The validation functions and the hookable event are given together or not at all.
  abbrev pub is_well_formed : Option ExternalFn → Option HookableLifecycleEvent → Bool
  is_well_formed none none = true
  is_well_formed (some _) (some _) = true
  is_well_formed _ _ = false

  -- The four answers, in the order of asking.
  abbrev pub asset_answers :
      AssetEvent
      → AssetRequest
      → AssetV1
      → Inputs
      → CheckMap
      → ExternalCheckMap
      → List (Result ValidationResult)
  asset_answers event request asset inputs checks external =
      ask_asset event request asset
      ∷ ask_collection event request
      ∷ validate_plugin_checks inputs event.plugin_validate_fp checks
      ∷ ask_externals event.external_validate_fp inputs external
      ∷ []

  -- `validate_asset_permissions`
  unfoldable pub validate_asset_permissions : AssetEvent → AssetRequest → Result (CoreData AssetV1)
  validate_asset_permissions event request = do
    guard (is_well_formed event.external_validate_fp event.hookable_lifecycle_event) panic
    core ← fetch_core_data asset_account request.asset
    resolved ← resolve_pubkey_to_authorities request.authority_info request.collection core.0
    check_collection core.0.update_authority request.collection
    of_collection ← collection_registry request.collection
    from_collection ←
        collection_external_checks event.hookable_lifecycle_event request.collection of_collection
    external ←
        add_external_checks event.hookable_lifecycle_event asset_v1 request.asset core.2
          from_collection
    let inputs = asset_inputs request resolved
    let checks = asset_checks event.plugin_check_fp of_collection core.2
    flags ← tally (asset_answers event request core.0 inputs checks external) no_flags
    decide_asset flags
    ok core
