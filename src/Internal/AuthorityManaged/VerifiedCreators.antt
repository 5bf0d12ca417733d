-- ===== src/Internal/AuthorityManaged/VerifiedCreators.antt =====
-- programs/mpl-core/src/plugins/internal/authority_managed/verified_creators.rs.
use mpl_core.Prelude.{
  Bool, true, false, Option, none, some, ◌&&◌, not, if◌then◌else◌, List, contains, collect_set,
  length, get_elem?, map, ◌==◌, ℕ, suc, ◌%◌, [], ◌∷◌, compare,
}
use mpl_core.Prelude.Collect.{collect_by}
use mpl_core.Prelude.BTreeMap.{BTreeMap, get}
use mpl_core.Error.{
  Result, ok, ok_or, custom, panic, ProgramError, invalid_authority, invalid_plugin_setting,
  invalid_plugin_operation, missing_signer, ◌>>=◌, ◌>>◌, guard,
}
use mpl_core.State.{Pubkey}
use mpl_core.Plugins.{Plugin, VerifiedCreators, VerifiedCreatorsSignature}
use mpl_core.Lifecycle.{
  PluginValidationContext, PluginValidation, default_validation, ValidationResult, approve, abstain,
  contains_authority,
}

abbrev pub Signatures : Type 0
Signatures = List VerifiedCreatorsSignature

-- `signatures.iter().map(|sig| (sig.address, sig)).collect()`
abbrev pub signature_map : Signatures → BTreeMap Pubkey VerifiedCreatorsSignature
signature_map sigs = collect_by (λ sig. sig.address) sigs []

abbrev pub addresses : Signatures → List Pubkey
addresses sigs = map (λ sig. sig.address) sigs

-- `SignatureChangeIndices`
pub record SignatureChangeIndices : Type 0 where
  pub added : List ℕ
  pub changed : List ℕ
  pub removed : List ℕ

-- `i as u8`
abbrev pub as_u8 : ℕ → ℕ
as_u8 i = i % 256

abbrev pub bool_eq : Bool → Bool → Bool
bool_eq true b = b
bool_eq false b = not b

-- The loop over the new signatures, from index `i`: the indices added and the indices changed.
abbrev pub scan_new : BTreeMap Pubkey VerifiedCreatorsSignature → ℕ → Signatures → List ℕ × List ℕ
scan_new existing i [] = ([], [])
scan_new existing i (sig ∷ sigs) =
    let (added, changed) = scan_new existing (suc i) sigs in
    elim (get compare sig.address existing) [
      | some old ↦
          if bool_eq old.verified sig.verified then (added, changed) else (added, as_u8 i ∷ changed)
      | none ↦ (as_u8 i ∷ added, changed)
    ]

-- The loop over the existing signatures: the indices removed.
abbrev pub scan_removed : List Pubkey → ℕ → Signatures → List ℕ
scan_removed new i [] = []
scan_removed new i (sig ∷ sigs) =
    let rest = scan_removed new (suc i) sigs in
    if contains new sig.address then rest else as_u8 i ∷ rest

abbrev pub signatures_of : Option VerifiedCreators → Signatures
signatures_of none = []
signatures_of (some v) = v.signatures

-- `calculate_signature_changes`
unfoldable pub calculate_signature_changes :
    VerifiedCreators → Option VerifiedCreators → Result SignatureChangeIndices
calculate_signature_changes new existing = do
  let existing_map = signature_map (signatures_of existing)
  let new_signatures = collect_set (addresses new.signatures)
  guard (length new.signatures == length new_signatures) (custom invalid_plugin_setting)
  let changes = scan_new existing_map 0 new.signatures
  ok (record {
    added = changes.0;
    changed = changes.1;
    removed = scan_removed new_signatures 0 (signatures_of existing);
  })

-- `for i in indices { if bad(&signatures[i]) { return Err(error) } }`
abbrev pub check_indices :
    (VerifiedCreatorsSignature → Bool) → ProgramError → Signatures → List ℕ → Result (Unit {0})
check_indices bad error sigs [] = ok tt
check_indices bad error sigs (i ∷ is) = do
  sig ← ok_or (get_elem? sigs i) panic
  guard (not (bad sig)) error
  check_indices bad error sigs is

abbrev pub is_empty : List ℕ → Bool
is_empty [] = true
is_empty _ = false

abbrev pub by_other : Pubkey → VerifiedCreatorsSignature → Bool
by_other authority sig = not (sig.address == authority)

abbrev pub verified_by_other : Pubkey → VerifiedCreatorsSignature → Bool
verified_by_other authority sig = sig.verified && not (sig.address == authority)

-- `validate_verified_creators_as_creator`
unfoldable pub validate_as_creator :
    VerifiedCreators → VerifiedCreators → Pubkey → Result ValidationResult
unfolding calculate_signature_changes
validate_as_creator new existing authority = do
  changes ← calculate_signature_changes new (some existing)
  guard (is_empty changes.added && is_empty changes.removed) (custom missing_signer)
  check_indices (by_other authority) (custom missing_signer) new.signatures changes.changed
  abstain

-- `validate_verified_creators_as_plugin_authority`
unfoldable pub validate_as_plugin_authority :
    VerifiedCreators → Option VerifiedCreators → Pubkey → Result ValidationResult
unfolding calculate_signature_changes
validate_as_plugin_authority new existing authority = do
  changes ← calculate_signature_changes new existing
  check_indices (verified_by_other authority) (custom invalid_plugin_operation)
      (signatures_of existing) changes.removed
  check_indices (by_other authority) (custom invalid_plugin_operation) new.signatures
      changes.changed
  check_indices (verified_by_other authority) (custom missing_signer) new.signatures changes.added
  abstain

abbrev pub validate_add_plugin :
    VerifiedCreators → PluginValidationContext → Result ValidationResult
validate_add_plugin self ctx = elim ctx.target_plugin [
  | some (Plugin.verified_creators _) ↦
      validate_as_plugin_authority self none ctx.authority_info.key
  | _ ↦ abstain
]

abbrev pub validate_update_plugin :
    VerifiedCreators → PluginValidationContext → Result ValidationResult
validate_update_plugin self ctx = do
  authorities ← ok_or ctx.resolved_authorities (custom invalid_authority)
  elim ctx.target_plugin [
    | some (Plugin.verified_creators new) ↦
        if contains_authority authorities ctx.self_authority
        then (validate_as_plugin_authority new (some self) ctx.authority_info.key >>= λ _. approve)
        else (validate_as_creator new self ctx.authority_info.key >>= λ _. approve)
    | _ ↦ abstain
  ]

unfoldable pub validation : VerifiedCreators → PluginValidation
validation self = record default_validation {
  validate_create = λ ctx. validate_as_plugin_authority self none ctx.authority_info.key;
  validate_add_plugin = validate_add_plugin self;
  validate_update_plugin = validate_update_plugin self;
}
