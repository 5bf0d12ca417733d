-- ===== src/Lifecycle/Tally.antt =====
-- How the answers to one event are put together: the flags `approved` and `rejected` that
-- programs/mpl-core/src/plugins/lifecycle.rs and utils/mod.rs keep while they ask one after another,
-- and the return at the first forced approval.
use mpl_core.Prelude.{Bool, true, false, Option, none, some, List, [], ◌∷◌, if◌then◌else◌}
use mpl_core.Error.{Result, ok, ◌>>=◌}
use mpl_core.Lifecycle.Types.{
  ValidationResult, approved, rejected, pass, force_approved, approve, reject, abstain,
  force_approve,
}

-- `let mut approved`, `let mut rejected`
pub record Flags : Type 0 where
  pub was_approved : Bool
  pub was_rejected : Bool

abbrev pub no_flags : Flags
no_flags = record { was_approved = false; was_rejected = false }

-- The answers in turn; `none` is the early return of a forced approval. An answer that fails ends
-- the event.
unfoldable pub tally : List (Result ValidationResult) → Flags → Result (Option Flags)
tally [] flags = ok (some flags)
tally (answer ∷ answers) flags = answer >>= λ result. elim result [
  | rejected ↦ tally answers (record flags { was_rejected = true })
  | approved ↦ tally answers (record flags { was_approved = true })
  | pass ↦ tally answers flags
  | force_approved ↦ ok none
]

-- The end of `validate_plugin_checks`.
abbrev pub conclude : Option Flags → Result ValidationResult
conclude none = force_approve
conclude (some flags) =
    if flags.was_rejected then reject else if flags.was_approved then approve else abstain
