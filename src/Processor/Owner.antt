-- ===== src/Processor/Owner.antt =====
-- programs/mpl-core/src/processor/{transfer,burn,execute}.rs: an asset without plugins.
use mpl_core.Prelude.{ap₂, ◌∷◌, ◌||◌, ◌≡◌, sym, ◌∙◌, ap, refl, none, some, arith, [], Option, true}
use mpl_core.Error.{Result, ok, ok-injective}
use mpl_core.State.{AccountInfo, AssetV1, asset_v1}
use mpl_core.Plugins.{PluginType}
use mpl_core.External.{HookableLifecycleEvent}
use mpl_core.Registry.Evaluate.{ExternalCheckMap, check_registry, check_adapter_registry}
use mpl_core.Host.{Host}
use mpl_core.Loading.{CoreData}
use mpl_core.Lifecycle.{
  CheckResult, ValidationResult, tally, approved, force_approved, Inputs, pass,
}
use mpl_core.Lifecycle.Validate.{
  PluginFn, ExternalFn, validate_plugin_checks, validate_external_plugin_adapter_checks,
  external_loop,
}
use mpl_core.Lifecycle.Outcome.{is_answer}
use mpl_core.Core.Asset.{validate_owner}
use mpl_core.Permissions.Asset.{
  AssetEvent, AssetRequest, asset_checks, ask_asset, asset_inputs, ask_externals,
  collection_registry, collection_external_checks, add_external_checks, validate_asset_permissions,
}
use mpl_core.Permissions.Granted.{LetThrough, validate_asset_permissions-IsGranted}
use mpl_core.Processor.Events.{owner_event}
use mpl_core.Processor.Frozen.{IsQuiet, ask_collection-IsQuiet}

module _ ⦃host : Host⦄ (check : CheckResult) (plugin_check : PluginType → CheckResult)
    (f : PluginFn) (g : ExternalFn) (hook : HookableLifecycleEvent) where
  abbrev event : AssetEvent
  event = owner_event check plugin_check f g hook

  only_asset :
      (a b p x : Result ValidationResult)
      → IsQuiet b
      → p ≡ ok pass
      → x ≡ ok pass
      → LetThrough (a ∷ b ∷ p ∷ x ∷ [])
      → (is_answer force_approved a || is_answer approved a) ≡ true
  only_asset a b p x quiet hp hx h = ground arith

  owner_answers :
      (request : AssetRequest) (asset : AssetV1)
      → (is_answer force_approved (ask_asset event request asset)
          || is_answer approved (ask_asset event request asset))
        ≡ true
      → request.authority_info.key ≡ asset.owner
  unfolding validate_owner
  owner_answers request asset h = ground arith

  no_plugins : (inputs : Inputs) → validate_plugin_checks inputs f [] ≡ ok pass
  unfolding validate_plugin_checks tally
  no_plugins inputs = refl

  no_externals : (inputs : Inputs) → ask_externals (some g) inputs [] ≡ ok pass
  unfolding validate_external_plugin_adapter_checks external_loop
  no_externals inputs = refl

  no_checks : asset_checks plugin_check none none ≡ []
  unfolding check_registry
  no_checks = refl

  no_collection_externals :
      (c : Option AccountInfo) → collection_external_checks (some hook) c none ≡ ok []
  unfolding check_adapter_registry
  no_collection_externals none = refl
  no_collection_externals (some info) = refl

  no_asset_externals :
      (info : AccountInfo) (checks : ExternalCheckMap)
      → add_external_checks (some hook) asset_v1 info none checks ≡ ok checks
  unfolding check_adapter_registry
  no_asset_externals info checks = refl

  -- A transfer, burn or execution of an asset without plugins, which is in no collection or in one without
  -- plugins, is only permitted to the asset's owner.
  pub unplugged_owner :
      (request : AssetRequest) (core : CoreData AssetV1)
      → core.2 ≡ none
      → collection_registry request.collection ≡ ok none
      → validate_asset_permissions event request ≡ ok core
      → request.authority_info.key ≡ core.0.owner
  unplugged_owner request core bare collection_bare h =
      let granted = validate_asset_permissions-IsGranted event request core h in
      let of_collection = ok-injective (sym granted.collection_read ∙ collection_bare) in
      let of_none =
        sym (no_collection_externals request.collection)
        ∙ ap (collection_external_checks (some hook) request.collection) (sym of_collection)
        ∙ granted.collection_external_read in
      let external =
        sym (no_asset_externals request.asset granted.from_collection)
        ∙ ap
            (λ registry.
              add_external_checks (some hook) asset_v1 request.asset registry
                granted.from_collection)
            (sym bare)
        ∙ granted.external_read in
      let inputs = asset_inputs request granted.resolved in
      owner_answers request core.0 (
        only_asset _ _ _ _
          (ask_collection-IsQuiet check plugin_check f g hook request check request.collection)
          (ap (validate_plugin_checks inputs f)
              (ap₂ (asset_checks plugin_check) of_collection bare ∙ no_checks)
            ∙ no_plugins inputs)
          (ap (ask_externals (some g) inputs)
              (ok-injective (sym external) ∙ ok-injective (sym of_none))
            ∙ no_externals inputs)
          granted.let_through)
