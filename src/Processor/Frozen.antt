-- ===== src/Processor/Frozen.antt =====
-- programs/mpl-core/src/processor/{transfer,burn,execute}.rs: an event that the owner may approve is
-- granted over the rejection of a plugin only where another plugin forces it.
use mpl_core.Prelude.{
  ◌≡◌, refl, ap, ◌∙◌, [], ◌∷◌, false, Option, none, some, Memᴰ, arith, ◌⊎◌, inl, inr,
}
use mpl_core.Error.{Result, ok, err, ◌>>=◌}
use mpl_core.State.{AccountInfo, AssetV1}
use mpl_core.Plugins.{PluginType}
use mpl_core.External.{HookableLifecycleEvent}
use mpl_core.Registry.Evaluate.{ExternalCheckMap}
use mpl_core.Host.{Host}
use mpl_core.Loading.{CoreData}
use mpl_core.Lifecycle.{
  CheckResult, ValidationResult, approved, rejected, pass, force_approved, Inputs, abstain,
}
use mpl_core.Lifecycle.Validate.{PluginFn, ExternalFn, ask, validate_plugin_checks}
use mpl_core.Lifecycle.Strongest.{result_eq}
use mpl_core.Lifecycle.Outcome.{is_answer, is_answer_eq}
use mpl_core.Lifecycle.Inversion.{
  Entry, Says, validate_plugin_checks-forced, validate_plugin_checks-rejected,
}
use mpl_core.Core.Asset.{validate_owner}
use mpl_core.Core.Collection.{validate_passive}
use mpl_core.Permissions.Asset.{
  AssetEvent, AssetRequest, asset_inputs, asset_checks, ask_asset, ask_collection,
  ask_collection_as, ask_externals, never_forced,
}
use mpl_core.Permissions.Granted.{LetThrough, IsGranted}
use mpl_core.Processor.Events.{owner_event}

module _ ⦃host : Host⦄ where
  never_forced_lem :
      (a : Result ValidationResult) → is_answer force_approved (never_forced a) ≡ false
  never_forced_lem (err e) = refl
  never_forced_lem (ok approved) = refl
  never_forced_lem (ok rejected) = refl
  never_forced_lem (ok pass) = refl
  never_forced_lem (ok force_approved) = refl

  ask_externals-never_forced :
      (f : Option ExternalFn) (inputs : Inputs) (external : ExternalCheckMap)
      → is_answer force_approved (ask_externals f inputs external) ≡ false
  ask_externals-never_forced none inputs external = refl
  ask_externals-never_forced (some f) inputs external = never_forced_lem _

  -- The answer neither forces nor approves.
  abbrev pub IsQuiet : Result ValidationResult → Type 0
  IsQuiet a = (is_answer force_approved a ≡ false) × (is_answer approved a ≡ false)

  passive-IsQuiet : {A : Type 0} (m : Result A) → IsQuiet (m >>= λ _. abstain)
  passive-IsQuiet (ok _) = (refl, refl)
  passive-IsQuiet (err _) = (refl, refl)

  module _ (check : CheckResult) (plugin_check : PluginType → CheckResult) (f : PluginFn)
      (g : ExternalFn) (hook : HookableLifecycleEvent) (request : AssetRequest) where
    abbrev event : AssetEvent
    event = owner_event check plugin_check f g hook

    ask_asset-never_forced :
        (asset : AssetV1) → is_answer force_approved (ask_asset event request asset) ≡ false
    unfolding validate_owner
    ask_asset-never_forced asset = ground arith

    pub ask_collection-IsQuiet :
        (check' : CheckResult) (c : Option AccountInfo)
        → IsQuiet (ask_collection_as event request check' c)
    unfolding validate_passive
    ask_collection-IsQuiet check' none = (refl, refl)
    ask_collection-IsQuiet CheckResult.none (some info) = (refl, refl)
    ask_collection-IsQuiet CheckResult.can_approve (some info) = passive-IsQuiet _
    ask_collection-IsQuiet CheckResult.can_reject (some info) = passive-IsQuiet _
    ask_collection-IsQuiet CheckResult.can_force_approve (some info) = passive-IsQuiet _

    -- What the answers say of the plugins' one, where only the plugins can force the event.
    plugins_answer :
        (a b p d : Result ValidationResult)
        → is_answer force_approved a ≡ false
        → is_answer force_approved b ≡ false
        → is_answer force_approved d ≡ false
        → LetThrough (a ∷ b ∷ p ∷ d ∷ [])
        → (p ≡ ok force_approved)
          ⊎ ((answer : ValidationResult) × (p ≡ ok answer) × (result_eq rejected answer ≡ false))
    plugins_answer a b p d ha hb hd (inl forced) =
        inl (is_answer_eq force_approved p (ground arith))
    plugins_answer a b (ok answer) d ha hb hd (inr (came, _, no_rejection)) =
        inr (answer, refl, ground arith)
    plugins_answer a b (err e) d ha hb hd (inr (came, _, no_rejection)) = ground arith

    -- What a granted event with a rejecting plugin in its checks shows: a plugin that forced it.
    pub granted-forced :
        (core : CoreData AssetV1) (granted : IsGranted event request core) (e : Entry)
        → Memᴰ e (asset_checks plugin_check granted.of_collection core.2)
        → ask (asset_inputs request granted.resolved) f e ≡ ok rejected
        → (forcing : Entry) × Memᴰ forcing (asset_checks plugin_check granted.of_collection core.2)
          × Says (asset_inputs request granted.resolved) f forcing force_approved
    granted-forced core granted e m says =
        let inputs = asset_inputs request granted.resolved in
        let checks = asset_checks plugin_check granted.of_collection core.2 in
        elim (plugins_answer (ask_asset event request core.0) (ask_collection event request)
          (validate_plugin_checks inputs f checks) _ (ask_asset-never_forced core.0)
          (ask_collection-IsQuiet check request.collection).0
          (ask_externals-never_forced (some g) inputs granted.external) granted.let_through) [
            | inl forced ↦ validate_plugin_checks-forced inputs f checks forced
            | inr (answer, given, not_rejected) ↦
                elim (validate_plugin_checks-rejected inputs f checks e answer m says given) [
                  | inl is_rejection ↦ cc
                  | inr is_forced ↦
                      validate_plugin_checks-forced inputs f checks (given ∙ ap ok is_forced)
                ]
          ]
