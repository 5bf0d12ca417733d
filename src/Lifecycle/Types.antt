-- ===== src/Lifecycle/Types.antt =====
-- programs/mpl-core/src/plugins/lifecycle.rs: check and validation results, the context of a
-- validation, and the trait `PluginValidation`.
use mpl_core.Prelude.{Bool, false, Option, some, List, any}
use mpl_core.Error.{Result, ok}
use mpl_core.State.{Pubkey, Key, Authority, authority_eq, UpdateAuthority, AccountInfo}
use mpl_core.Plugins.{Plugin}
use mpl_core.External.{ExternalPluginAdapter}

-- `CheckResult`
pub data CheckResult : Type 0 where
  can_approve can_reject none can_force_approve : CheckResult

-- `ValidationResult`
pub data ValidationResult : Type 0 where
  approved rejected pass force_approved : ValidationResult

-- The macros `abstain!`, `reject!`, `approve!` and `force_approve!`; what they log is left out.
abbrev pub abstain : Result ValidationResult
abstain = ok pass

abbrev pub reject : Result ValidationResult
reject = ok rejected

abbrev pub approve : Result ValidationResult
approve = ok approved

abbrev pub force_approve : Result ValidationResult
force_approve = ok force_approved

-- `PluginValidationContext`
pub record PluginValidationContext : Type 0 where
  pub accounts : List AccountInfo
  pub asset_info : Option AccountInfo
  pub collection_info : Option AccountInfo
  pub self_key : Key
  pub self_authority : Authority
  pub authority_info : AccountInfo
  pub resolved_authorities : Option (List Authority)
  pub new_owner : Option AccountInfo
  pub new_asset_authority : Option UpdateAuthority
  pub new_collection_authority : Option Pubkey
  pub target_plugin : Option Plugin
  pub target_plugin_authority : Option Authority
  pub target_external_plugin : Option ExternalPluginAdapter
  pub target_external_plugin_authority : Option Authority

-- `authorities.contains(authority)`
abbrev pub contains_authority : List Authority → Authority → Bool
contains_authority authorities authority = any (λ a. authority_eq a authority) authorities

-- `ctx.resolved_authorities.is_some() && ...unwrap().contains(ctx.self_authority)`
abbrev pub is_resolved : PluginValidationContext → Bool
is_resolved ctx = elim ctx.resolved_authorities [
  | some authorities ↦ contains_authority authorities ctx.self_authority
  | Option.none ↦ false
]

abbrev pub Validation : Type 0
Validation = PluginValidationContext → Result ValidationResult

-- The trait `PluginValidation`: an implementation is a table of methods.
pub record PluginValidation : Type 0 where
  pub validate_add_plugin : Validation
  pub validate_remove_plugin : Validation
  pub validate_add_external_plugin_adapter : Validation
  pub validate_remove_external_plugin_adapter : Validation
  pub validate_approve_plugin_authority : Validation
  pub validate_revoke_plugin_authority : Validation
  pub validate_create : Validation
  pub validate_update : Validation
  pub validate_update_plugin : Validation
  pub validate_burn : Validation
  pub validate_transfer : Validation
  pub validate_compress : Validation
  pub validate_decompress : Validation
  pub validate_execute : Validation
  pub validate_update_external_plugin_adapter : Validation

-- The trait's default methods, which all abstain.
abbrev pub default_validation : PluginValidation
default_validation = record {
  validate_add_plugin = λ _. abstain;
  validate_remove_plugin = λ _. abstain;
  validate_add_external_plugin_adapter = λ _. abstain;
  validate_remove_external_plugin_adapter = λ _. abstain;
  validate_approve_plugin_authority = λ _. abstain;
  validate_revoke_plugin_authority = λ _. abstain;
  validate_create = λ _. abstain;
  validate_update = λ _. abstain;
  validate_update_plugin = λ _. abstain;
  validate_burn = λ _. abstain;
  validate_transfer = λ _. abstain;
  validate_compress = λ _. abstain;
  validate_decompress = λ _. abstain;
  validate_execute = λ _. abstain;
  validate_update_external_plugin_adapter = λ _. abstain;
}
