-- ===== src/Adapters/AgentIdentity.antt =====
-- programs/mpl-core/src/plugins/external/agent_identity.rs.
use mpl_core.Prelude.{
  ℕ, List, [], ◌∷◌, Option, none, some, Bool, false, ◌&&◌, get_elem?, ◌==◌, if◌then◌else◌,
}
use mpl_core.Error.{Result, panic, ok_or, custom, agent_identity_must_sign, ◌>>=◌, ◌>>◌}
use mpl_core.State.{Pubkey, AccountInfo}
use mpl_core.Host.{Host}
use mpl_core.Lifecycle.{
  PluginValidationContext, PluginValidation, default_validation, ValidationResult, abstain, approve,
  reject,
}

-- `slice.last()`
abbrev last? : List AccountInfo → Option AccountInfo
last? [] = none
last? (account ∷ []) = some account
last? (_ ∷ next ∷ accounts) = last? (next ∷ accounts)

abbrev starts_with_key : List ℕ → ℕ → Bool
starts_with_key [] key = false
starts_with_key (byte ∷ _) key = byte == key

module _ ⦃host : Host⦄ where
  -- `AgentIdentity::verify_identity_registry`
  unfoldable pub verify_identity_registry : AccountInfo → Pubkey → Result (Unit {0})
  verify_identity_registry identity_account asset = do
    host.assert_signer identity_account
    host.assert_derivation host.agent_identity_id identity_account
        (host.agent_identity_prefix ∷ host.pubkey_bytes asset ∷ [])
        (custom agent_identity_must_sign)

  -- `AgentIdentity::verify_execution_delegate`
  unfoldable pub verify_execution_delegate : Pubkey → Pubkey → AccountInfo → Result ValidationResult
  verify_execution_delegate asset authority delegate =
      if delegate.owner == host.agent_tools_id
        && starts_with_key delegate.bytes host.execution_delegate_key
      then (host.execution_delegate_record delegate >>= λ (agent_asset, record_authority).
          if agent_asset == asset && record_authority == authority then approve else abstain)
      else abstain

  -- `validate_create` and `validate_add_external_plugin_adapter`: not on a collection, and signed by
  -- the last account.
  unfoldable pub validate_addition : PluginValidationContext → Result ValidationResult
  unfolding verify_identity_registry
  validate_addition ctx = elim ctx.asset_info [
    | none ↦ reject
    | some asset_info ↦ do
      identity_account ← ok_or (last? ctx.accounts) panic
      verify_identity_registry identity_account asset_info.key
      abstain
  ]

  unfoldable pub validate_execute : PluginValidationContext → Result ValidationResult
  unfolding verify_execution_delegate
  validate_execute ctx = elim ctx.asset_info [
    | none ↦ abstain
    | some asset_info ↦ elim (get_elem? ctx.accounts 7) [
      | none ↦ abstain
      | some account ↦ verify_execution_delegate asset_info.key ctx.authority_info.key account
    ]
  ]

  unfoldable pub validation : PluginValidation
  validation = record default_validation {
    validate_create = validate_addition;
    validate_add_external_plugin_adapter = validate_addition;
    validate_execute = validate_execute;
  }
