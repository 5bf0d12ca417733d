-- ===== src/Storage/Creating.antt =====
-- programs/mpl-core/src/plugins/utils.rs: `create_meta_idempotent` makes an account one that stores a list
-- of plugins, and leaves such an account as it is.
use mpl_core.Prelude.{
  ℕ, ◌+◌, ◌-◌, ◌≡◌, refl, ap, sym, ◌∙◌, arith, List, [], ◌++◌, length, length-append, append_assoc,
  append-nil, drop, length-drop, repeated, length-repeated, fitted, take-past,
}
use mpl_core.Error.{Result, ok, ◌>>=◌}
use mpl_core.State.{AccountInfo}
use mpl_core.Registry.{registry_len}
use mpl_core.Host.{Host}
use mpl_core.Loading.{SolanaAccount, load, header_account, registry_account}
use mpl_core.Storage.Accounts.{Accounts, save, with_bytes, resize_or_reallocate_account}
use mpl_core.Storage.Meta.{create_meta_idempotent, empty_registry}
use mpl_core.Storage.Codec.{load-coded, write_bytes-stored, write_bytes-last}
use mpl_core.Storage.Runtime.{IsRuntime, resize_or_reallocate_account-IsResized}
use mpl_core.Storage.Layout.{
  Item, area_offset, header_of, registry_of, layout, meta_of, with_items, IsCodedMeta, IsLaidOut,
}
use mpl_core.Storage.Reading.{load_plugin_meta-laid_out, is_longer-laid_out, core-laid_out}

module _ ⦃host : Host⦄ {T : Type 0} (trait : SolanaAccount T) (core : T)
    (system_program : AccountInfo) (accounts : Accounts) where
  -- `create_meta_idempotent` leaves an account that stores a list of plugins as it is, and gives the core
  -- data, the header and the registry of the list.
  pub create_meta_idempotent-keeps :
      (items : List Item)
      → IsLaidOut trait core accounts.account items
      → IsCodedMeta trait core items
      → create_meta_idempotent trait system_program accounts
        ≡ ok (core, trait.len core, meta_of trait core items accounts)
  unfolding create_meta_idempotent
  create_meta_idempotent-keeps items laid_out coded = ground (
    arith,
    core-laid_out trait core items accounts.account laid_out coded,
    is_longer-laid_out trait core items accounts.account laid_out coded,
    load_plugin_meta-laid_out trait core items accounts.account laid_out coded,
  )

  module _ (runtime : IsRuntime host) (coded : IsCodedMeta trait core [])
      (owned : accounts.account.owner ≡ host.program_id)
      (bare : accounts.account.bytes ≡ trait.serialize core) where
    abbrev C : List ℕ
    C = trait.serialize core

    abbrev H : List ℕ
    H = header_account.serialize (header_of trait core [])

    abbrev R : List ℕ
    R = registry_account.serialize (registry_of trait core [])

    abbrev new_size : ℕ
    new_size = length (layout trait core [])

    size : new_size ≡ length C + (length H + length R)
    size = omega (arith, length-append C (H ++ R), length-append H R)

    resized-stored :
        (resized : Accounts)
        → resize_or_reallocate_account system_program new_size accounts ≡ ok resized
        → resized.account.bytes ≡ C ++ repeated 0 (new_size - length C)
    resized-stored resized success =
        (resize_or_reallocate_account-IsResized runtime system_program new_size accounts resized
          success).resized_bytes
        ∙ ap (fitted 0 new_size) bare
        ∙ ap (λ first. first ++ repeated 0 (new_size - length C))
            (take-past new_size C (omega (arith, size)))

    saved :
        (resized : Accounts)
        → resize_or_reallocate_account system_program new_size accounts ≡ ok resized
        → (save header_account (header_of trait core []) (trait.len core) resized.account
            >>= λ headed.
                save registry_account (registry_of trait core []) (area_offset trait core) headed)
          ≡ ok (with_bytes resized.account (layout trait core []))
    saved resized success =
        let Z : List ℕ = repeated 0 (new_size - length C) in
        let filled = length-repeated {A = ℕ} 0 (new_size - length C) in
        let s1 =
          write_bytes-stored H C Z resized.account (resized-stored resized success)
            (omega (arith, filled, size)) in
        let s2 =
          write_bytes-last R (C ++ H) (drop (length H) Z)
            (with_bytes resized.account (C ++ (H ++ drop (length H) Z)))
            (omega (arith, length-drop (length H) Z, filled, size)) (simp append_assoc refl) in
        let last : (C ++ H) ++ R ≡ C ++ (H ++ R) = simp append_assoc refl in
        let at : area_offset trait core ≡ length (C ++ H) =
          omega (arith, length-append C H, coded.core_coded.sized, coded.header_coded.sized) in
        ground (arith, s1, s2, last, coded.core_coded.sized, at)

    core-bare : load trait accounts.account 0 ≡ ok core
    core-bare =
        load-coded trait accounts.account core [] [] coded.core_coded owned
          (bare ∙ sym (append-nil C))

    new_size_lem : trait.len core + 1 + 8 + registry_len empty_registry ≡ new_size
    new_size_lem =
        omega (
          arith, size, coded.core_coded.sized, coded.header_coded.sized, coded.registry_coded.sized,
        )

    creates :
        (result : Result Accounts)
        → resize_or_reallocate_account system_program new_size accounts ≡ result
        → create_meta_idempotent trait system_program accounts ≡ (
            result >>= λ resized.
            ok (core, trait.len core, meta_of trait core [] (with_items trait core [] resized)))
    unfolding create_meta_idempotent
    creates (Result.err e) h =
        ground (arith, core-bare, h, new_size_lem, ap length bare, coded.core_coded.sized)
    creates (Result.ok resized) h =
        ground (
          arith,
          core-bare,
          h,
          new_size_lem,
          ap length bare,
          coded.core_coded.sized,
          saved resized h,
        )

    -- `create_meta_idempotent`, on an account that ends with its core data: it fails only where
    -- `resize_or_reallocate_account` does, and then the account stores the empty list of plugins.
    pub create_meta_idempotent-creates : create_meta_idempotent trait system_program accounts ≡ (
        resize_or_reallocate_account system_program new_size accounts >>= λ resized.
        ok (core, trait.len core, meta_of trait core [] (with_items trait core [] resized)))
    create_meta_idempotent-creates =
        creates (resize_or_reallocate_account system_program new_size accounts) refl
