-- ===== src/Lifecycle/Validate.antt =====
-- programs/mpl-core/src/plugins/lifecycle.rs: `validate_plugin_checks` and
-- `validate_external_plugin_adapter_checks`.
use mpl_core.Prelude.{Bool, true, false, [], ◌∷◌, map, ◌||◌, if◌then◌else◌}
use mpl_core.Error.{Result, err, panic, custom, ok_or, invalid_collection, invalid_asset, ◌>>=◌}
use mpl_core.State.{AccountInfo, Key, collection_v1, asset_v1}
use mpl_core.Plugins.{Plugin, PluginType}
use mpl_core.External.{
  ExternalCheckResult, ExternalPluginAdapter, can_listen, can_approve, can_reject,
}
use mpl_core.Registry.{RegistryRecord, ExternalRegistryRecord}
use mpl_core.Registry.Evaluate.{CheckMap, ExternalCheckMap}
use mpl_core.Host.{Host}
use mpl_core.Loading.{load_plugin, load_external}
use mpl_core.Lifecycle.Types.{
  CheckResult, ValidationResult, approved, rejected, pass, force_approved, PluginValidationContext,
  abstain, approve, reject,
}
use mpl_core.Lifecycle.Arguments.{Inputs, context}
use mpl_core.Lifecycle.Tally.{tally, no_flags, conclude}

-- `match check_key { .. }`: the account that holds the plugin.
abbrev pub holder : Inputs → Key → Result AccountInfo
holder inputs collection_v1 = ok_or inputs.collection (custom invalid_collection)
holder inputs asset_v1 = ok_or inputs.asset (custom invalid_asset)
holder inputs _ = err panic

-- `matches!(check_result, CheckResult::CanApprove | CheckResult::CanReject)`
abbrev pub takes_part : CheckResult → Bool
takes_part CheckResult.can_approve = true
takes_part CheckResult.can_reject = true
takes_part _ = false

module _ ⦃host : Host⦄ where
  abbrev pub PluginFn : Type 0
  PluginFn = Plugin → PluginValidationContext → Result ValidationResult

  abbrev pub ExternalFn : Type 0
  ExternalFn = ExternalPluginAdapter → PluginValidationContext → Result ValidationResult

  -- The loop's body up to the answer; a plugin that takes no part passes.
  unfoldable pub ask :
      Inputs
      → PluginFn
      → PluginType × (Key × CheckResult × RegistryRecord)
      → Result ValidationResult
  ask inputs validate_fp (_, (check_key, check_result, r)) =
      if takes_part check_result
      then (do
        account ← holder inputs check_key
        plugin ← load_plugin account r.offset
        validate_fp plugin (context inputs check_key r.authority))
      else abstain

  -- `validate_plugin_checks`
  unfoldable pub validate_plugin_checks : Inputs → PluginFn → CheckMap → Result ValidationResult
  validate_plugin_checks inputs validate_fp checks = do
    flags ← tally (map (ask inputs validate_fp) checks) no_flags
    conclude flags

  -- The answer of one external plugin adapter.
  unfoldable pub ask_external :
      Inputs → ExternalFn → Key → ExternalRegistryRecord → Result ValidationResult
  ask_external inputs validate_fp check_key r = do
    account ← holder inputs check_key
    plugin ← load_external account r.offset
    validate_fp plugin (context inputs check_key r.authority)

  -- One turn of the loop of `validate_external_plugin_adapter_checks`, with its flag `approved`, the
  -- adapter's answer, and what the turns after it come to for either value of the flag.
  abbrev pub external_step :
      Bool
      → ExternalCheckResult
      → Result ValidationResult
      → (Bool → Result ValidationResult)
      → Result ValidationResult
  external_step was_approved check answer rest =
      elim (can_listen check || can_approve check || can_reject check) [
        | true ↦ answer >>= λ result. elim result [
          | rejected ↦ elim (can_reject check) [ true ↦ reject | false ↦ rest was_approved ]
          | approved ↦ rest (was_approved || can_approve check)
          | pass ↦ rest was_approved
          | force_approved ↦ err panic
        ]
        | false ↦ rest was_approved
      ]

  unfoldable pub external_loop :
      Inputs → ExternalFn → Bool → ExternalCheckMap → Result ValidationResult
  external_loop inputs validate_fp was_approved [] = if was_approved then approve else abstain
  external_loop inputs validate_fp was_approved ((_, (key, check, r)) ∷ checks) =
      external_step was_approved check (ask_external inputs validate_fp key r)
        (λ flag. external_loop inputs validate_fp flag checks)

  -- `validate_external_plugin_adapter_checks`
  unfoldable pub validate_external_plugin_adapter_checks :
      Inputs → ExternalFn → ExternalCheckMap → Result ValidationResult
  unfolding external_loop
  validate_external_plugin_adapter_checks inputs validate_fp checks =
      external_loop inputs validate_fp false checks
