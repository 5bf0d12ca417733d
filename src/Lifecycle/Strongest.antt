-- ===== src/Lifecycle/Strongest.antt =====
-- programs/mpl-core/src/plugins/lifecycle.rs: the rule by which the answers to one event are ranked,
-- stated without an order of asking.
use mpl_core.Prelude.{
  ◌≡◌, refl, ◌∙◌, Bool, true, false, ◌||◌, Option, none, some, List, [], ◌∷◌, map, any, arith,
  if◌then◌else◌,
}
use mpl_core.Error.{ok}
use mpl_core.Registry.Evaluate.{CheckMap}
use mpl_core.Host.{Host}
use mpl_core.Lifecycle.Types.{ValidationResult, approved, rejected, pass, force_approved}
use mpl_core.Lifecycle.Arguments.{Inputs}
use mpl_core.Lifecycle.Tally.{Flags, tally, no_flags, conclude}
use mpl_core.Lifecycle.Validate.{PluginFn, ask, validate_plugin_checks}

abbrev pub result_eq : ValidationResult → ValidationResult → Bool
result_eq approved approved = true
result_eq rejected rejected = true
result_eq pass pass = true
result_eq force_approved force_approved = true
result_eq _ _ = false

-- Some answer is this result.
abbrev pub is_among : ValidationResult → List ValidationResult → Bool
is_among r results = any (result_eq r) results

-- A forced approval beats a rejection, which beats an approval, which beats abstention.
abbrev pub strongest : List ValidationResult → ValidationResult
strongest results =
    if is_among force_approved results
    then force_approved
    else if is_among rejected results
    then rejected
    else if is_among approved results
    then approved
    else pass

-- The flags after all answers, whatever their order; `none` where one is forced.
abbrev pub flags_after : List ValidationResult → Flags → Option Flags
flags_after results flags =
    if is_among force_approved results
    then none
    else some (record {
      was_approved = flags.was_approved || is_among approved results;
      was_rejected = flags.was_rejected || is_among rejected results;
    })

pub tally-flags_after :
    (results : List ValidationResult) (flags : Flags)
    → tally (map ok results) flags ≡ ok (flags_after results flags)
unfolding tally
tally-flags_after [] flags = ground arith
tally-flags_after (approved ∷ results) flags =
    tally-flags_after results (record flags { was_approved = true }) ∙ ground arith
tally-flags_after (rejected ∷ results) flags =
    tally-flags_after results (record flags { was_rejected = true }) ∙ ground arith
tally-flags_after (pass ∷ results) flags = tally-flags_after results flags
tally-flags_after (force_approved ∷ results) flags = refl

conclude-flags_after :
    (results : List ValidationResult)
    → conclude (flags_after results no_flags) ≡ ok (strongest results)
conclude-flags_after results = ground arith

module _ ⦃host : Host⦄ (inputs : Inputs) (validate_fp : PluginFn) (checks : CheckMap) where
  -- Where every plugin that is asked answers, the event's result is the strongest of the answers,
  -- in whatever order they come.
  pub validate_plugin_checks-strongest :
      (results : List ValidationResult)
      → map (ask inputs validate_fp) checks ≡ map ok results
      → validate_plugin_checks inputs validate_fp checks ≡ ok (strongest results)
  unfolding validate_plugin_checks
  validate_plugin_checks-strongest results h =
      rw (h, tally-flags_after results no_flags) (conclude-flags_after results)
