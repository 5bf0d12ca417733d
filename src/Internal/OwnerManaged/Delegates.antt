-- ===== src/Internal/OwnerManaged/Delegates.antt =====
-- programs/mpl-core/src/plugins/internal/owner_managed/burn_delegate.rs and transfer_delegate.rs.
use mpl_core.Prelude.{if◌then◌else◌}
use mpl_core.Error.{Result}
use mpl_core.Lifecycle.{
  PluginValidationContext, PluginValidation, default_validation, ValidationResult, approve, abstain,
  is_resolved,
}

-- `BurnDelegate::validate_burn` and `TransferDelegate::validate_transfer`: the delegate approves.
abbrev pub validate_delegate : PluginValidationContext → Result ValidationResult
validate_delegate ctx = if is_resolved ctx then approve else abstain

unfoldable pub burn_delegate_validation : PluginValidation
burn_delegate_validation = record default_validation { validate_burn = validate_delegate }

unfoldable pub transfer_delegate_validation : PluginValidation
transfer_delegate_validation = record default_validation { validate_transfer = validate_delegate }
