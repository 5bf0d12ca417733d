-- ===== src/Lifecycle/Inversion.antt =====
-- programs/mpl-core/src/plugins/lifecycle.rs: what the result of `validate_plugin_checks` says of the
-- plugins that were asked, and what a plugin's answer says of the account it was read from.
use mpl_core.Prelude.{◌≡◌, true, Option, none, some, List, map, Memᴰ, arith, ◌⊎◌, inl, inr}
use mpl_core.Error.{Result, ok, >>=-succeeds}
use mpl_core.State.{AccountInfo, Key}
use mpl_core.Plugins.{Plugin, PluginType}
use mpl_core.Registry.{RegistryRecord}
use mpl_core.Registry.Evaluate.{CheckMap}
use mpl_core.Host.{Host}
use mpl_core.Loading.{load_plugin}
use mpl_core.Lifecycle.Types.{ValidationResult, rejected, force_approved, CheckResult}
use mpl_core.Lifecycle.Arguments.{Inputs, context}
use mpl_core.Lifecycle.Tally.{tally, no_flags, conclude, Flags}
use mpl_core.Lifecycle.Outcome.{
  answers_with, is_answer, Outcome, tally-Outcome, answers_with-mem, mem-answers_with, is_answer_eq,
}
use mpl_core.Lifecycle.Validate.{PluginFn, ask, validate_plugin_checks, holder, takes_part}

-- An entry of the map of checks.
abbrev pub Entry : Type 0
Entry = PluginType × (Key × CheckResult × RegistryRecord)

module _ ⦃host : Host⦄ where
  -- The entry's plugin, as the account that holds it stores it.
  abbrev pub Stores : Inputs → Entry → Plugin → Type 0
  Stores inputs (_, (key, _, r)) plugin =
      (account : AccountInfo) × (holder inputs key ≡ ok account)
      × (load_plugin account r.offset ≡ ok plugin)

  abbrev pub entry_check : Entry → CheckResult
  entry_check (_, (_, check, _)) = check

  -- The plugin said so, of an entry that takes part.
  abbrev pub Says : Inputs → PluginFn → Entry → ValidationResult → Type 0
  Says inputs validate_fp (t, (key, check, r)) answer =
      (plugin : Plugin) × Stores inputs (t, (key, check, r)) plugin
      × (validate_fp plugin (context inputs key r.authority) ≡ ok answer)

  ask-Says :
      (inputs : Inputs) (validate_fp : PluginFn) (e : Entry)
      → ask inputs validate_fp e ≡ ok force_approved
      → Says inputs validate_fp e force_approved
  unfolding ask
  ask-Says inputs validate_fp (t, (key, CheckResult.none, r)) h = cc
  ask-Says inputs validate_fp (t, (key, CheckResult.can_force_approve, r)) h = cc
  ask-Says inputs validate_fp (t, (key, CheckResult.can_approve, r)) h =
      let (account, held, h1) = >>=-succeeds (holder inputs key) _ h in
      let (plugin, loaded, h2) = >>=-succeeds (load_plugin account r.offset) _ h1 in
      (plugin, (account, held, loaded), h2)
  ask-Says inputs validate_fp (t, (key, CheckResult.can_reject, r)) h =
      let (account, held, h1) = >>=-succeeds (holder inputs key) _ h in
      let (plugin, loaded, h2) = >>=-succeeds (load_plugin account r.offset) _ h1 in
      (plugin, (account, held, loaded), h2)

  -- A plugin that takes part is asked.
  pub ask-Stores :
      (inputs : Inputs) (validate_fp : PluginFn) (t : PluginType) (key : Key) (check : CheckResult)
      (r : RegistryRecord) (plugin : Plugin)
      → takes_part check ≡ true
      → Stores inputs (t, (key, check, r)) plugin
      → ask inputs validate_fp (t, (key, check, r))
        ≡ validate_fp plugin (context inputs key r.authority)
  unfolding ask
  ask-Stores inputs validate_fp t key check r plugin h (account, held, loaded) =
      ground (arith, held, loaded)

  -- A forced approval is some plugin's.
  pub validate_plugin_checks-forced :
      (inputs : Inputs) (validate_fp : PluginFn) (checks : CheckMap)
      → validate_plugin_checks inputs validate_fp checks ≡ ok force_approved
      → (e : Entry) × Memᴰ e checks × Says inputs validate_fp e force_approved
  unfolding validate_plugin_checks
  validate_plugin_checks-forced inputs validate_fp checks h =
      let answers = map (ask inputs validate_fp) checks in
      let (flags, tallied, h1) = >>=-succeeds (tally answers no_flags) _ h in
      let (e, m, says) =
        answers_with-mem (ask inputs validate_fp) force_approved checks
          (forced answers flags (tally-Outcome answers no_flags flags tallied) h1) in
      (e, m, ask-Says inputs validate_fp e (is_answer_eq force_approved _ says))
    where
      forced :
          (answers : List (Result ValidationResult)) (flags : Option Flags)
          → Outcome answers no_flags flags
          → conclude flags ≡ ok force_approved
          → answers_with force_approved answers ≡ true
      forced answers none outcome h' = outcome
      forced answers (some flags) outcome h' = ground arith

  -- Where some plugin rejects, the result is a rejection or a forced approval.
  pub validate_plugin_checks-rejected :
      (inputs : Inputs) (validate_fp : PluginFn) (checks : CheckMap) (e : Entry)
      (answer : ValidationResult)
      → Memᴰ e checks
      → ask inputs validate_fp e ≡ ok rejected
      → validate_plugin_checks inputs validate_fp checks ≡ ok answer
      → (answer ≡ rejected) ⊎ (answer ≡ force_approved)
  unfolding validate_plugin_checks
  validate_plugin_checks-rejected inputs validate_fp checks e answer m says h =
      let answers = map (ask inputs validate_fp) checks in
      let (flags, tallied, h1) = >>=-succeeds (tally answers no_flags) _ h in
      let here = mem-answers_with (ask inputs validate_fp) rejected checks e m (is_rejected says) in
      last answers flags (tally-Outcome answers no_flags flags tallied) here h1
    where
      is_rejected : {a : Result ValidationResult} → a ≡ ok rejected → is_answer rejected a ≡ true
      is_rejected {a} p = rw p

      last :
          (answers : List (Result ValidationResult)) (flags : Option Flags)
          → Outcome answers no_flags flags
          → answers_with rejected answers ≡ true
          → conclude flags ≡ ok answer
          → (answer ≡ rejected) ⊎ (answer ≡ force_approved)
      last answers none outcome here' h' = inr (cc)
      last answers (some flags) outcome here' h' = inl (ground arith)
