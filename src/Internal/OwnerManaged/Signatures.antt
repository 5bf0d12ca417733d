-- ===== src/Internal/OwnerManaged/Signatures.antt =====
-- programs/mpl-core/src/plugins/internal/owner_managed/autograph.rs: which changes of the autographs are
-- valid.
use mpl_core.Prelude.{
  All, length-map, collect_set, contains, ◌↔◌, Bool, true, ◌≡◌, List, [], ◌∷◌, contains,
  collect_set, arith, ◌==◌, Option, none, some, ◌⊎◌,
}
use mpl_core.Prelude.BTreeMap.{BTreeMap}
use mpl_core.Prelude.BTreeSet.{list_eq}
use mpl_core.Prelude.Collect.{
  last_by, collect_by-get, collect_by-All, IsDistinct, collect_set-contains, collect_set-IsDistinct,
}
use mpl_core.Error.{ok}
use mpl_core.State.{Pubkey}
use mpl_core.Plugins.{Autograph, AutographSignature}
use mpl_core.Lifecycle.{pass}
use mpl_core.Internal.OwnerManaged.Autograph.{
  Signatures, addresses, signatures_of, signature_map, check_new, check_kept, validate_autograph,
}

-- The autograph that an address had; of several, the last.
abbrev pub autograph_of : Pubkey → Signatures → Option AutographSignature
autograph_of a sigs = last_by (λ sig. sig.address) a sigs none

-- An autograph that was there keeps its message; one that was not is the signer's.
abbrev pub is_kept_or_own : Option AutographSignature → Pubkey → AutographSignature → Bool
is_kept_or_own (some old) authority sig = list_eq old.message sig.message
is_kept_or_own none authority sig = sig.address == authority

check_new_iff :
    (old : Signatures) (authority : Pubkey) (sigs : Signatures)
    → (check_new (signature_map old) authority sigs ≡ ok tt)
      ↔ All (λ sig. is_kept_or_own (autograph_of sig.address old) authority sig ≡ true) sigs
check_new_iff old authority [] = ground arith
check_new_iff old authority (sig ∷ sigs) =
    ground
      (arith, check_new_iff old authority sigs, collect_by-get (λ s. s.address) sig.address old [])

check_kept_iff :
    (new : List Pubkey) (m : BTreeMap Pubkey AutographSignature)
    → (check_kept (collect_set new) m ≡ ok tt) ↔ All (λ e. contains new e.0 ≡ true) m
check_kept_iff new [] = ground arith
check_kept_iff new (e ∷ m) = ground (arith, check_kept_iff new m, collect_set-contains new e.0)

-- A change of the autographs is valid exactly where every autograph of the new list was there with the
-- same message or is the signer's and new, no address stands twice in the new list, and, unless the
-- signer is the plugin's authority, every address of the old list is in the new one.
pub validate_autograph_iff :
    (new : Autograph) (old : Option Autograph) (authority : Pubkey) (is_plugin_authority : Bool)
    → (validate_autograph new old authority is_plugin_authority ≡ ok pass) ↔ (
        All
          (λ sig.
            is_kept_or_own (autograph_of sig.address (signatures_of old)) authority sig ≡ true)
          new.signatures
        × IsDistinct (addresses new.signatures)
        × ((is_plugin_authority ≡ true)
            ⊎ All
                (λ sig. contains (addresses new.signatures) sig.address ≡ true)
                (signatures_of old)))
unfolding validate_autograph
validate_autograph_iff new old authority is_plugin_authority = ground (
  arith,
  check_new_iff (signatures_of old) authority new.signatures,
  check_kept_iff (addresses new.signatures) (signature_map (signatures_of old)),
  collect_by-All (λ s. s.address) (contains (addresses new.signatures)) (signatures_of old) [],
  length-map (λ s. s.address) new.signatures,
  collect_set-IsDistinct (addresses new.signatures),
)
