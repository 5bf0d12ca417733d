-- ===== src/Internal/OwnerManaged/Autograph.antt =====
-- programs/mpl-core/src/plugins/internal/owner_managed/autograph.rs.
use mpl_core.Prelude.{
  Bool, true, Option, none, some, if◌then◌else◌, List, contains, collect_set, length, map, ◌==◌, [],
  ◌∷◌, compare,
}
use mpl_core.Prelude.Collect.{collect_by}
use mpl_core.Prelude.BTreeMap.{BTreeMap, get}
use mpl_core.Prelude.BTreeSet.{list_eq}
use mpl_core.Error.{
  Result, ok, ok_or, custom, invalid_authority, invalid_plugin_setting, invalid_plugin_operation,
  missing_signer, ◌>>=◌, ◌>>◌, guard,
}
use mpl_core.State.{Pubkey}
use mpl_core.Plugins.{Plugin, Autograph, AutographSignature}
use mpl_core.Lifecycle.{
  PluginValidationContext, PluginValidation, default_validation, ValidationResult, approve, abstain,
  contains_authority,
}

abbrev pub Signatures : Type 0
Signatures = List AutographSignature

-- `signatures.iter().map(|sig| (sig.address, sig)).collect()`
abbrev pub signature_map : Signatures → BTreeMap Pubkey AutographSignature
signature_map sigs = collect_by (λ sig. sig.address) sigs []

abbrev pub addresses : Signatures → List Pubkey
addresses sigs = map (λ sig. sig.address) sigs

abbrev pub signatures_of : Option Autograph → Signatures
signatures_of none = []
signatures_of (some a) = a.signatures

-- The loop over the new signatures: a known one keeps its message, a new one is the signer's.
abbrev pub check_new : BTreeMap Pubkey AutographSignature → Pubkey → Signatures → Result (Unit {0})
check_new existing authority [] = ok tt
check_new existing authority (sig ∷ sigs) = do
  elim (get compare sig.address existing) [
    | some old ↦ guard (list_eq old.message sig.message) (custom invalid_plugin_operation)
    | none ↦ guard (sig.address == authority) (custom missing_signer)
  ]
  check_new existing authority sigs

-- The loop over the existing keys: each is still there.
abbrev pub check_kept : List Pubkey → BTreeMap Pubkey AutographSignature → Result (Unit {0})
check_kept new [] = ok tt
check_kept new ((key, _) ∷ entries) = do
  guard (contains new key) (custom missing_signer)
  check_kept new entries

unfoldable pub validate_autograph :
    Autograph → Option Autograph → Pubkey → Bool → Result ValidationResult
validate_autograph new autograph authority is_plugin_authority = do
  let existing_map = signature_map (signatures_of autograph)
  check_new existing_map authority new.signatures
  let new_signatures = collect_set (addresses new.signatures)
  guard (length new.signatures == length new_signatures) (custom invalid_plugin_setting)
  if is_plugin_authority then ok tt else check_kept new_signatures existing_map
  abstain

abbrev pub validate_add_plugin : Autograph → PluginValidationContext → Result ValidationResult
validate_add_plugin self ctx = elim ctx.target_plugin [
  | some (Plugin.autograph _) ↦
      validate_autograph self none ctx.authority_info.key true >>= λ _. approve
  | _ ↦ abstain
]

abbrev pub validate_update_plugin : Autograph → PluginValidationContext → Result ValidationResult
validate_update_plugin self ctx = do
  authorities ← ok_or ctx.resolved_authorities (custom invalid_authority)
  elim ctx.target_plugin [
    | some (Plugin.autograph autograph) ↦
        validate_autograph autograph (some self) ctx.authority_info.key
          (contains_authority authorities ctx.self_authority)
        >>= λ _. approve
    | _ ↦ abstain
  ]

unfoldable pub validation : Autograph → PluginValidation
validation self = record default_validation {
  validate_create = λ ctx. validate_autograph self none ctx.authority_info.key true;
  validate_add_plugin = validate_add_plugin self;
  validate_update_plugin = validate_update_plugin self;
}
