-- ===== src/Processor/Overrides.antt =====
-- programs/mpl-core/src/processor/{transfer,burn,execute}.rs: an asset or a collection with a plugin that
-- freezes it, where the event is one that the owner approves.
use mpl_core.Prelude.{◌≡◌, refl, ap, ◌∙◌, Bool, true, none, some, [], Memᴰ}
use mpl_core.Prelude.BTreeMap.{get}
use mpl_core.Prelude.IndexedMap.{get-mem}
use mpl_core.Error.{ok}
use mpl_core.State.{AccountInfo, AssetV1, Key, asset_v1, collection_v1}
use mpl_core.Plugins.{Plugin, PluginType, plugin_type, plugin_type_index, plugin_type_cmp}
use mpl_core.External.{HookableLifecycleEvent}
use mpl_core.Registry.{RegistryRecord}
use mpl_core.Registry.Evaluate.{CheckMap, check_registry}
use mpl_core.Registry.Lookup.{last_record, check_registry-listed, check_registry-unlisted}
use mpl_core.Host.{Host}
use mpl_core.Loading.{load_plugin, CoreData}
use mpl_core.Lifecycle.{
  CheckResult, can_reject, rejected, force_approved, PluginValidationContext, Inputs,
}
use mpl_core.Lifecycle.Validate.{PluginFn, ExternalFn, holder, takes_part}
use mpl_core.Lifecycle.Inversion.{Entry, Says, ask-Stores}
use mpl_core.Permissions.Asset.{AssetRequest, asset_inputs, asset_checks, records_of}
use mpl_core.Permissions.Granted.{IsGranted}
use mpl_core.Processor.Events.{owner_event}
use mpl_core.Processor.Frozen.{granted-forced}

module _ ⦃host : Host⦄ (check : CheckResult) (plugin_check : PluginType → CheckResult)
    (f : PluginFn) (g : ExternalFn) (hook : HookableLifecycleEvent) (freezes : Plugin → Bool)
    (takes : (plugin : Plugin)
      → freezes plugin ≡ true
      → plugin_check (plugin_type plugin) ≡ can_reject)
    (rejects : (plugin : Plugin) (ctx : PluginValidationContext)
      → freezes plugin ≡ true
      → f plugin ctx ≡ ok rejected)
    (request : AssetRequest) (core : CoreData AssetV1)
    (granted : IsGranted (owner_event check plugin_check f g hook) request core) where
  abbrev pub inputs : Inputs
  inputs = asset_inputs request granted.resolved

  abbrev of_collection : CheckMap
  of_collection = check_registry (records_of granted.of_collection) collection_v1 plugin_check []

  -- The event was forced by a plugin of the asset or its collection.
  abbrev pub WasForced : Type 0
  WasForced =
      (forcing : Entry) × Memᴰ forcing (asset_checks plugin_check granted.of_collection core.2)
      × Says inputs f forcing force_approved

  pub get-WasForced :
      (key : Key) (r : RegistryRecord) (account : AccountInfo) (plugin : Plugin)
      → get plugin_type_cmp
          (plugin_type plugin)
          (asset_checks plugin_check granted.of_collection core.2)
        ≡ some (key, plugin_check (plugin_type plugin), r)
      → holder inputs key ≡ ok account
      → load_plugin account r.offset ≡ ok plugin
      → freezes plugin ≡ true
      → WasForced
  get-WasForced key r account plugin found held loaded frozen =
      let (t, _, m) =
        get-mem plugin_type_index (plugin_type plugin) (key, plugin_check (plugin_type plugin), r) _
          found in
      granted-forced check plugin_check f g hook request core granted _ m (
        ask-Stores inputs f t key (plugin_check (plugin_type plugin)) r plugin
          (ap takes_part (takes plugin frozen)) (account, held, loaded)
        ∙ rejects plugin _ frozen)

  -- The asset's own freeze.
  pub asset-WasForced :
      (r : RegistryRecord) (plugin : Plugin)
      → last_record (plugin_type plugin) (records_of core.2) ≡ some r
      → load_plugin request.asset r.offset ≡ ok plugin
      → freezes plugin ≡ true
      → WasForced
  asset-WasForced r plugin listed loaded frozen =
      get-WasForced asset_v1 r request.asset plugin
        (check_registry-listed (plugin_type plugin) (records_of core.2) asset_v1 plugin_check
          of_collection r listed)
        refl loaded frozen

  -- The collection's freeze, which the asset has no record of its own to override.
  pub collection-WasForced :
      (r : RegistryRecord) (account : AccountInfo) (plugin : Plugin)
      → last_record (plugin_type plugin) (records_of core.2) ≡ none
      → last_record (plugin_type plugin) (records_of granted.of_collection) ≡ some r
      → request.collection ≡ some account
      → load_plugin account r.offset ≡ ok plugin
      → freezes plugin ≡ true
      → WasForced
  collection-WasForced r account plugin unlisted listed held loaded frozen =
      get-WasForced collection_v1 r account plugin
        (check_registry-unlisted (plugin_type plugin) (records_of core.2) asset_v1 plugin_check
            of_collection unlisted
          ∙ check_registry-listed (plugin_type plugin) (records_of granted.of_collection)
              collection_v1 plugin_check [] r listed)
        (rw held) loaded frozen
