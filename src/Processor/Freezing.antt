-- ===== src/Processor/Freezing.antt =====
-- programs/mpl-core/src/processor/{transfer,burn,execute}.rs: what a frozen asset withstands.
use mpl_core.Prelude.{subst, ap, sym, ◌∙◌, Option, ◌≢◌, none, ◌≡◌, true, some, Memᴰ}
use mpl_core.Error.{ok-injective, ok}
use mpl_core.State.{AccountInfo, AssetV1}
use mpl_core.Plugins.{Plugin, plugin_type, PluginType}
use mpl_core.Registry.{RegistryRecord, PluginRegistryV1}
use mpl_core.Host.{Host}
use mpl_core.Loading.{load_plugin, CoreData}
use mpl_core.Lifecycle.Validate.{PluginFn}
use mpl_core.Lifecycle.{
  PluginValidationContext, is_resolved, force_approved, contains_authority, check_transfer,
  check_burn, check_execute, CheckResult,
}
use mpl_core.Lifecycle.Inversion.{Entry, Stores, Says}
use mpl_core.Registry.Lookup.{last_record}
use mpl_core.Internal.Dispatch.{validate_transfer, validate_burn, validate_execute}
use mpl_core.Internal.Forced.{
  validate_transfer_forced, validate_burn_forced, validate_execute_forced,
}
use mpl_core.Internal.Freezes.{
  freezes_moves, freezes_execute, freezes_moves-check_transfer, freezes_moves-check_burn,
  freezes_execute-check_execute, freezes_moves-validate_transfer, freezes_moves-validate_burn,
  freezes_execute-validate_execute,
}
use mpl_core.Permissions.Asset.{
  AssetEvent, AssetRequest, asset_inputs, asset_checks, records_of, collection_registry,
  validate_asset_permissions,
}
use mpl_core.Permissions.Granted.{IsGranted, validate_asset_permissions-IsGranted}
use mpl_core.Processor.Events.{transfer_event, burn_event, execute_event}
use mpl_core.Processor.Overrides.{asset-WasForced, collection-WasForced}

module _ ⦃host : Host⦄ where
  -- A plugin of this value is among the checks, and the signer holds its authority.
  pub record HasDelegate (delegate : Plugin) (plugin_check : PluginType → CheckResult)
      (event : AssetEvent) (request : AssetRequest) (core : CoreData AssetV1) : Type 0 where
    pub granted : IsGranted event request core
    pub entry : Entry
    pub listed : Memᴰ entry (asset_checks plugin_check granted.of_collection core.2)
    pub stored : Stores (asset_inputs request granted.resolved) entry delegate
    pub held : contains_authority granted.resolved entry.1.2.authority ≡ true

  of_forced :
      {delegate : Plugin} {plugin_check : PluginType → CheckResult} {f : PluginFn}
      {event : AssetEvent} (request : AssetRequest) {core : CoreData AssetV1}
      (granted : IsGranted event request core)
      → ((plugin : Plugin) (ctx : PluginValidationContext)
          → f plugin ctx ≡ ok force_approved
          → (plugin ≡ delegate) × (is_resolved ctx ≡ true))
      → (e : Entry) × Memᴰ e (asset_checks plugin_check granted.of_collection core.2)
        × Says (asset_inputs request granted.resolved) f e force_approved
      → HasDelegate delegate plugin_check event request core
  of_forced request granted only (e, m, (plugin, stored, forced)) =
      let (is_delegate, held) = only plugin _ forced in
      record {
        granted = granted;
        entry = e;
        listed = m;
        stored = subst (Stores (asset_inputs request granted.resolved) e) is_delegate stored;
        held = held;
      }

  -- Where the asset's registry lists a freeze delegate or a permanent freeze delegate that the account
  -- stores as frozen, a transfer is only permitted if a permanent transfer delegate is among the plugins
  -- of the asset and its collection and the signer holds that delegate's authority.
  pub transfer_frozen :
      (request : AssetRequest) (core : CoreData AssetV1) (r : RegistryRecord) (plugin : Plugin)
      → last_record (plugin_type plugin) (records_of core.2) ≡ some r
      → load_plugin request.asset r.offset ≡ ok plugin
      → freezes_moves plugin ≡ true
      → validate_asset_permissions transfer_event request ≡ ok core
      → HasDelegate Plugin.permanent_transfer_delegate check_transfer transfer_event request core
  unfolding transfer_event
  transfer_frozen request core r plugin listed loaded frozen h =
      let granted = validate_asset_permissions-IsGranted transfer_event request core h in
      of_forced request granted validate_transfer_forced (
        asset-WasForced _ check_transfer validate_transfer _ _ freezes_moves
          freezes_moves-check_transfer freezes_moves-validate_transfer request core granted r plugin
          listed loaded frozen)

  -- Where the asset's registry lists a freeze delegate or a permanent freeze delegate that the account
  -- stores as frozen, a burn is only permitted if a permanent burn delegate is among the plugins of the
  -- asset and its collection and the signer holds that delegate's authority.
  pub burn_frozen :
      (request : AssetRequest) (core : CoreData AssetV1) (r : RegistryRecord) (plugin : Plugin)
      → last_record (plugin_type plugin) (records_of core.2) ≡ some r
      → load_plugin request.asset r.offset ≡ ok plugin
      → freezes_moves plugin ≡ true
      → validate_asset_permissions burn_event request ≡ ok core
      → HasDelegate Plugin.permanent_burn_delegate check_burn burn_event request core
  unfolding burn_event
  burn_frozen request core r plugin listed loaded frozen h =
      let granted = validate_asset_permissions-IsGranted burn_event request core h in
      of_forced request granted validate_burn_forced (
        asset-WasForced _ check_burn validate_burn _ _ freezes_moves freezes_moves-check_burn
          freezes_moves-validate_burn request core granted r plugin listed loaded frozen)

  -- Where the asset's registry lists a freeze execute or a permanent freeze execute plugin that the
  -- account stores as frozen, no execution is permitted, whoever signs.
  pub execute_frozen :
      (request : AssetRequest) (core : CoreData AssetV1) (r : RegistryRecord) (plugin : Plugin)
      → last_record (plugin_type plugin) (records_of core.2) ≡ some r
      → load_plugin request.asset r.offset ≡ ok plugin
      → freezes_execute plugin ≡ true
      → validate_asset_permissions execute_event request ≢ ok core
  unfolding execute_event
  execute_frozen request core r plugin listed loaded frozen h =
      let granted = validate_asset_permissions-IsGranted execute_event request core h in
      let (entry, m, says) =
        asset-WasForced _ check_execute validate_execute _ _ freezes_execute
          freezes_execute-check_execute freezes_execute-validate_execute request core granted r
          plugin listed loaded frozen in
      let (delegate, stored, forced) = says in validate_execute_forced delegate _ forced

  -- Where the collection's registry lists a freeze delegate or a permanent freeze delegate that the
  -- collection's account stores as frozen, and the asset's registry lists no plugin of the same type, a
  -- transfer of the asset is only permitted if a permanent transfer delegate is among the plugins of the
  -- asset and its collection and the signer holds that delegate's authority.
  pub transfer_collection_frozen :
      (request : AssetRequest) (core : CoreData AssetV1) (of_collection : Option PluginRegistryV1)
      (r : RegistryRecord) (info : AccountInfo) (plugin : Plugin)
      → last_record (plugin_type plugin) (records_of core.2) ≡ none
      → request.collection ≡ some info
      → collection_registry request.collection ≡ ok of_collection
      → last_record (plugin_type plugin) (records_of of_collection) ≡ some r
      → load_plugin info r.offset ≡ ok plugin
      → freezes_moves plugin ≡ true
      → validate_asset_permissions transfer_event request ≡ ok core
      → HasDelegate Plugin.permanent_transfer_delegate check_transfer transfer_event request core
  unfolding transfer_event
  transfer_collection_frozen request core of_collection r info plugin unlisted with_collection read
        listed loaded frozen h =
      let granted = validate_asset_permissions-IsGranted transfer_event request core h in
      of_forced request granted validate_transfer_forced (
        collection-WasForced _ check_transfer validate_transfer _ _ freezes_moves
          freezes_moves-check_transfer freezes_moves-validate_transfer request core granted r info
          plugin unlisted
          (ap (λ o. last_record (plugin_type plugin) (records_of o))
              (ok-injective (sym granted.collection_read ∙ read))
            ∙ listed)
          with_collection loaded frozen)
