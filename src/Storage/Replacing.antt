-- ===== src/Storage/Replacing.antt =====
-- programs/mpl-core/src/plugins/utils.rs: the search for a record whose authority changes, and the change
-- of size that comes of it.
use mpl_core.Prelude.{
  true, pos, sub_ℕ, as_isize, is_zero, checked_sub_isize, checked_add_isize, ℕ, ◌+◌, ◌^◌, ◌<◌, ◌≡◌,
  refl, ap, ap₂, ◌∙◌, arith, none, some, List, [], ◌∷◌, ◌++◌, length, ==_refl,
}
use mpl_core.Error.{numerical_overflow, ok_or, ok, custom}
use mpl_core.State.{Authority}
use mpl_core.Plugins.{PluginType, plugin_type_index}
use mpl_core.Registry.{RegistryRecord, authority_len}
use mpl_core.Host.{Host}
use mpl_core.Storage.Plugins.{authority_diff, replace_authority}
use mpl_core.Storage.Layout.{Item, internal, external, next, records, IsFree}

module _ ⦃host : Host⦄ (t : PluginType) (new_authority : Authority) where
  pub replace_authority-free :
      (at : ℕ) (xs : List Item)
      → IsFree t xs
      → replace_authority t new_authority (records at xs) ≡ none
  replace_authority-free at [] free = refl
  replace_authority-free at (internal a p ∷ xs) (other, free) =
      ground (arith, other, replace_authority-free (next at (internal a p)) xs free)
  replace_authority-free at (external e ∷ xs) free =
      replace_authority-free (next at (external e)) xs free

  pub replace_authority-append :
      (at : ℕ) (before : List Item) (r : RegistryRecord) (rest : List RegistryRecord)
      → IsFree t before
      → r.plugin_type ≡ t
      → replace_authority t new_authority (records at before ++ (r ∷ rest))
        ≡ some (r.authority, records at before ++ ((record r { authority = new_authority }) ∷ rest))
  replace_authority-append at [] r rest free same = ground (arith, ==_refl (plugin_type_index t))
  replace_authority-append at (internal a p ∷ before) r rest (other, free) same =
      ground
        (arith, other, replace_authority-append (next at (internal a p)) before r rest free same)
  replace_authority-append at (external e ∷ before) r rest free same =
      replace_authority-append (next at (external e)) before r rest free same

-- An authority is stored in as many bytes as its length says.
abbrev pub IsCodedAuthority : ⦃host : Host⦄ → Authority → Type 0
IsCodedAuthority ⦃host⦄ authority =
    length (host.encode_authority authority) ≡ authority_len authority

pub authority_len_bounds : (a : Authority) → (0 < authority_len a) × (authority_len a < 34)
authority_len_bounds Authority.none = omega arith
authority_len_bounds Authority.owner = omega arith
authority_len_bounds Authority.update_authority = omega arith
authority_len_bounds (Authority.address a) = omega arith

module _ ⦃host : Host⦄ where
  diff_of_lengths :
      (m n : ℕ) → m < 34 → n < 34 → checked_sub_isize (as_isize m) (as_isize n) ≡ some (sub_ℕ m n)
  diff_of_lengths m n hm hn = ground arith

  pub authority_diff_lem :
      (new_authority old_authority : Authority)
      → IsCodedAuthority new_authority
      → IsCodedAuthority old_authority
      → authority_diff new_authority old_authority
        ≡ ok (sub_ℕ (authority_len new_authority) (authority_len old_authority))
  authority_diff_lem new_authority old_authority new_coded old_coded =
      ap₂ (λ m n. ok_or (checked_sub_isize (as_isize m) (as_isize n)) (custom numerical_overflow))
        new_coded old_coded
      ∙ ap (λ d. ok_or d (custom numerical_overflow))
          (diff_of_lengths (authority_len new_authority) (authority_len old_authority)
            (authority_len_bounds new_authority).1 (authority_len_bounds old_authority).1)

  pub no_difference : (m n : ℕ) → is_zero (sub_ℕ m n) ≡ true → m ≡ n
  no_difference m n h = ground arith

  pub changed_size :
      (size m n new_size : ℕ)
      → m < 34
      → n < 34
      → size + 34 < 2 ^ 63
      → new_size + n ≡ size + m
      → checked_add_isize (as_isize size) (sub_ℕ m n) ≡ some (pos new_size)
  changed_size size m n new_size hm hn bound e = ground arith
