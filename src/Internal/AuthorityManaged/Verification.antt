-- ===== src/Internal/AuthorityManaged/Verification.antt =====
-- programs/mpl-core/src/plugins/internal/authority_managed/verified_creators.rs: which changes of the
-- verified creators are valid.
use mpl_core.Prelude.{
  All, ◌↔◌, Bool, true, false, ◌≡◌, ◌∙◌, ap, List, [], ◌∷◌, contains, collect_set, arith, Option,
  none, some, length, ℕ, suc, ◌+◌, ◌≤◌, not, ◌&&◌, get_elem?, length-map,
}
use mpl_core.Prelude.Collect.{
  last_by, collect_by-get, IsDistinct, collect_set-contains, collect_set-IsDistinct,
}
use mpl_core.Error.{ok, ProgramError, custom, missing_signer, invalid_plugin_operation}
use mpl_core.State.{Pubkey}
use mpl_core.Plugins.{VerifiedCreators, VerifiedCreatorsSignature}
use mpl_core.Lifecycle.{pass}
use mpl_core.Internal.AuthorityManaged.VerifiedCreators.{
  Signatures, addresses, signatures_of, signature_map, scan_new, scan_removed, check_indices, as_u8,
  is_empty, bool_eq, by_other, verified_by_other, calculate_signature_changes, validate_as_creator,
  validate_as_plugin_authority,
}

-- The signature that an address had; of several, the last.
abbrev pub signature_of : Pubkey → Signatures → Option VerifiedCreatorsSignature
signature_of a sigs = last_by (λ sig. sig.address) a sigs none

abbrev pub is_added : Option VerifiedCreatorsSignature → Bool
is_added none = true
is_added (some _) = false

abbrev pub is_changed : Option VerifiedCreatorsSignature → VerifiedCreatorsSignature → Bool
is_changed none sig = false
is_changed (some old) sig = not (bool_eq old.verified sig.verified)

-- `sigs` is what `full` has from index `i` on.
abbrev IsRest : Signatures → ℕ → Signatures → Type 0
IsRest full i sigs = (j : ℕ) → get_elem? full (i + j) ≡ get_elem? sigs j

IsRest-all : (full : Signatures) → IsRest full 0 full
IsRest-all full j = ap (get_elem? full) (omega arith)

IsRest-tail :
    (full : Signatures) (i : ℕ) (sig : VerifiedCreatorsSignature) (sigs : Signatures)
    → IsRest full i (sig ∷ sigs)
    → IsRest full (suc i) sigs
IsRest-tail full i sig sigs h j = ap (get_elem? full) (omega arith) ∙ h (suc j)

IsRest-head :
    (full : Signatures) (i : ℕ) (sig : VerifiedCreatorsSignature) (sigs : Signatures)
    → IsRest full i (sig ∷ sigs)
    → i + length (sig ∷ sigs) ≤ 256
    → get_elem? full (as_u8 i) ≡ some sig
IsRest-head full i sig sigs h fits = ap (get_elem? full) (omega arith) ∙ h 0

module _ (bad : VerifiedCreatorsSignature → Bool) (error : ProgramError) (full : Signatures) where
  check_added_iff :
      (old : Signatures) (i : ℕ) (sigs : Signatures)
      → IsRest full i sigs
      → i + length sigs ≤ 256
      → (check_indices bad error full (scan_new (signature_map old) i sigs).0 ≡ ok tt)
        ↔ All (λ sig. (is_added (signature_of sig.address old) && bad sig) ≡ false) sigs
  check_added_iff old i [] rest fits = ground arith
  check_added_iff old i (sig ∷ sigs) rest fits = ground (
    arith,
    IsRest-head full i sig sigs rest fits,
    check_added_iff old (suc i) sigs (IsRest-tail full i sig sigs rest) (omega arith),
    collect_by-get (λ s. s.address) sig.address old [],
  )

  check_changed_iff :
      (old : Signatures) (i : ℕ) (sigs : Signatures)
      → IsRest full i sigs
      → i + length sigs ≤ 256
      → (check_indices bad error full (scan_new (signature_map old) i sigs).1 ≡ ok tt)
        ↔ All (λ sig. (is_changed (signature_of sig.address old) sig && bad sig) ≡ false) sigs
  check_changed_iff old i [] rest fits = ground arith
  check_changed_iff old i (sig ∷ sigs) rest fits = ground (
    arith,
    IsRest-head full i sig sigs rest fits,
    check_changed_iff old (suc i) sigs (IsRest-tail full i sig sigs rest) (omega arith),
    collect_by-get (λ s. s.address) sig.address old [],
  )

  check_removed_iff :
      (new : List Pubkey) (i : ℕ) (sigs : Signatures)
      → IsRest full i sigs
      → i + length sigs ≤ 256
      → (check_indices bad error full (scan_removed (collect_set new) i sigs) ≡ ok tt)
        ↔ All (λ sig. (not (contains new sig.address) && bad sig) ≡ false) sigs
  check_removed_iff new i [] rest fits = ground arith
  check_removed_iff new i (sig ∷ sigs) rest fits = ground (
    arith,
    IsRest-head full i sig sigs rest fits,
    check_removed_iff new (suc i) sigs (IsRest-tail full i sig sigs rest) (omega arith),
    collect_set-contains new sig.address,
  )

none_added_iff :
    (old : Signatures) (i : ℕ) (sigs : Signatures)
    → (is_empty (scan_new (signature_map old) i sigs).0 ≡ true)
      ↔ All (λ sig. is_added (signature_of sig.address old) ≡ false) sigs
none_added_iff old i [] = ground arith
none_added_iff old i (sig ∷ sigs) =
    ground
      (arith, none_added_iff old (suc i) sigs, collect_by-get (λ s. s.address) sig.address old [])

none_removed_iff :
    (new : List Pubkey) (i : ℕ) (sigs : Signatures)
    → (is_empty (scan_removed (collect_set new) i sigs) ≡ true)
      ↔ All (λ sig. contains new sig.address ≡ true) sigs
none_removed_iff new i [] = ground arith
none_removed_iff new i (sig ∷ sigs) =
    ground (arith, none_removed_iff new (suc i) sigs, collect_set-contains new sig.address)

-- Of at most 256 new signatures, a change by a signer who is not the plugin's authority is valid exactly
-- where no address stands twice in the new list, the same addresses are in the new and in the old list,
-- and every signature whose `verified` changes is the signer's own.
pub validate_as_creator_iff :
    (new existing : VerifiedCreators) (authority : Pubkey)
    → length new.signatures ≤ 256
    → (validate_as_creator new existing authority ≡ ok pass) ↔ (
        IsDistinct (addresses new.signatures)
        × All
            (λ sig. is_added (signature_of sig.address existing.signatures) ≡ false)
            new.signatures
        × All (λ sig. contains (addresses new.signatures) sig.address ≡ true) existing.signatures
        × All
            (λ sig.
              (is_changed (signature_of sig.address existing.signatures) sig
                && by_other authority sig)
              ≡ false)
            new.signatures)
unfolding validate_as_creator calculate_signature_changes
validate_as_creator_iff new existing authority fits = ground (
  arith,
  none_added_iff existing.signatures 0 new.signatures,
  none_removed_iff (addresses new.signatures) 0 existing.signatures,
  check_changed_iff (by_other authority) (custom missing_signer) new.signatures existing.signatures
      0 new.signatures (IsRest-all new.signatures) (omega arith),
  length-map (λ s. s.address) new.signatures,
  collect_set-IsDistinct (addresses new.signatures),
)

-- Of at most 256 new and 256 old signatures, a change by the plugin's authority is valid exactly where no
-- address stands twice in the new list, every signature that is removed is unverified or the signer's,
-- every signature whose `verified` changes is the signer's, and every signature that is added is
-- unverified or the signer's.
pub validate_as_plugin_authority_iff :
    (new : VerifiedCreators) (existing : Option VerifiedCreators) (authority : Pubkey)
    → length new.signatures ≤ 256
    → length (signatures_of existing) ≤ 256
    → (validate_as_plugin_authority new existing authority ≡ ok pass) ↔ (
        IsDistinct (addresses new.signatures)
        × All
            (λ sig.
              (not (contains (addresses new.signatures) sig.address)
                && verified_by_other authority sig)
              ≡ false)
            (signatures_of existing)
        × All
            (λ sig.
              (is_changed (signature_of sig.address (signatures_of existing)) sig
                && by_other authority sig)
              ≡ false)
            new.signatures
        × All
            (λ sig.
              (is_added (signature_of sig.address (signatures_of existing))
                && verified_by_other authority sig)
              ≡ false)
            new.signatures)
unfolding validate_as_plugin_authority calculate_signature_changes
validate_as_plugin_authority_iff new existing authority fits fits' = ground (
  arith,
  check_removed_iff (verified_by_other authority) (custom invalid_plugin_operation)
      (signatures_of existing) (addresses new.signatures) 0 (signatures_of existing)
      (IsRest-all (signatures_of existing)) (omega arith),
  check_changed_iff (by_other authority) (custom invalid_plugin_operation) new.signatures
      (signatures_of existing) 0 new.signatures (IsRest-all new.signatures) (omega arith),
  check_added_iff (verified_by_other authority) (custom missing_signer) new.signatures
      (signatures_of existing) 0 new.signatures (IsRest-all new.signatures) (omega arith),
  length-map (λ s. s.address) new.signatures,
  collect_set-IsDistinct (addresses new.signatures),
)
