-- ===== src/Adapters/Oracle.antt =====
-- programs/mpl-core/src/plugins/external/oracle.rs.
use mpl_core.Prelude.{
  ℕ, List, Option, none, some, find, length, leb, drop, ◌==◌, if◌then◌else◌, ltb,
}
use mpl_core.Error.{
  Result, ok, fail, ok_or, custom, missing_external_plugin_adapter_account,
  invalid_oracle_account_data, uninitialized_oracle_account, ◌>>=◌,
}
use mpl_core.State.{Pubkey}
use mpl_core.External.{
  Oracle, to_offset_usize, OracleValidation, v1, ExternalValidationResult, HookableLifecycleEvent,
}
use mpl_core.Host.{Host}
use mpl_core.Lifecycle.{
  PluginValidationContext, PluginValidation, default_validation, ValidationResult, abstain,
}
use mpl_core.Adapters.Derive.{derive}

-- `ValidationResult::from(ExternalValidationResult)`
abbrev pub from_external : ExternalValidationResult → ValidationResult
from_external ExternalValidationResult.approved = ValidationResult.approved
from_external ExternalValidationResult.rejected = ValidationResult.rejected
from_external ExternalValidationResult.pass = ValidationResult.pass

-- `OracleValidation::serialized_size`
abbrev pub serialized_size : ℕ
serialized_size = 5

-- The last match of `validate_helper`: the oracle's answer to the event.
abbrev pub answer_of : OracleValidation → HookableLifecycleEvent → Result ValidationResult
answer_of OracleValidation.uninitialized event = fail uninitialized_oracle_account
answer_of (v1 create transfer burn update) event = elim event [
  | HookableLifecycleEvent.create ↦ ok (from_external create)
  | HookableLifecycleEvent.transfer ↦ ok (from_external transfer)
  | HookableLifecycleEvent.burn ↦ ok (from_external burn)
  | HookableLifecycleEvent.update ↦ ok (from_external update)
  | HookableLifecycleEvent.execute ↦ abstain
]

-- `oracle_data.get(offset..)`
abbrev get_from : List ℕ → ℕ → Option (List ℕ)
get_from bytes offset = if leb offset (length bytes) then some (drop offset bytes) else none

module _ ⦃host : Host⦄ where
  abbrev oracle_address : Oracle → PluginValidationContext → Result Pubkey
  oracle_address self ctx = elim self.base_address_config [
    | none ↦ ok self.base_address
    | some extra_account ↦ derive ctx extra_account self.base_address
  ]

  -- `Oracle::validate_helper`
  unfoldable pub validate_helper :
      Oracle → PluginValidationContext → HookableLifecycleEvent → Result ValidationResult
  validate_helper self ctx event = do
    oracle_key ← oracle_address self ctx
    oracle_account ←
        ok_or (find (λ account. account.key == oracle_key) ctx.accounts)
          (custom missing_external_plugin_adapter_account)
    slice ←
        ok_or (get_from oracle_account.bytes (to_offset_usize self.results_offset))
          (custom invalid_oracle_account_data)
    validation ←
        if ltb (length slice) serialized_size
        then fail invalid_oracle_account_data
        else ok_or (host.decode_oracle_validation slice) (custom invalid_oracle_account_data)
    answer_of validation event

  unfoldable pub validation : Oracle → PluginValidation
  validation self = record default_validation {
    validate_create = λ ctx. validate_helper self ctx HookableLifecycleEvent.create;
    validate_transfer = λ ctx. validate_helper self ctx HookableLifecycleEvent.transfer;
    validate_burn = λ ctx. validate_helper self ctx HookableLifecycleEvent.burn;
    validate_update = λ ctx. validate_helper self ctx HookableLifecycleEvent.update;
  }
