-- ===== src/Storage/Closing.antt =====
-- programs/mpl-core/src/plugins/utils.rs: what `delete_plugin` and `delete_external_plugin_adapter` do
-- after they have found the record implements the removal from the list.
use mpl_core.Prelude.{
  ℕ, ◌+◌, ◌^◌, ◌<◌, ◌≡◌, ap, ap₂, sym, ◌∙◌, arith, List, ◌∷◌, ◌++◌, length, length-append, drop,
  take-append, length-drop,
}
use mpl_core.Error.{ok, ◌>>=◌}
use mpl_core.State.{AccountInfo, plugin_registry_v1}
use mpl_core.Registry.{PluginRegistryV1, registry_len}
use mpl_core.Host.{Host}
use mpl_core.Loading.{SolanaAccount, header_account, registry_account}
use mpl_core.Storage.Accounts.{Accounts, write_bytes, with_bytes}
use mpl_core.Storage.Runtime.{
  IsRuntime, IsRefundable, refunded, resize_or_reallocate_account-shrinks,
}
use mpl_core.Storage.Plugins.{remove_stored}
use mpl_core.Storage.Layout.{
  Item, area, item_bytes, area_offset, header_of, registry_of, layout, with_items, IsCodedMeta,
  IsLaidOut,
}
use mpl_core.Storage.Sizes.{
  area-append, records-append, external_records-append, end_of, length-layout,
}
use mpl_core.Storage.Moving.{apart, bump_offsets-closes}
use mpl_core.Storage.Removing.{moved-stored, two_saves}

module _ ⦃host : Host⦄ (runtime : IsRuntime host) {T : Type 0} (trait : SolanaAccount T) (core : T)
    (before after : List Item) (item : Item) (system_program : AccountInfo)
    (accounts : Accounts) where
  abbrev old_items : List Item
  old_items = before ++ (item ∷ after)

  abbrev new_items : List Item
  new_items = before ++ after

  abbrev P : List ℕ
  P = item_bytes item

  abbrev pub position : ℕ
  position = end_of (area_offset trait core) before

  area-old : area old_items ≡ area before ++ (P ++ area after)
  area-old = area-append before (item ∷ after)

  end-old : end_of (area_offset trait core) old_items ≡ end_of (position + length P) after
  end-old = omega (
    arith,
    ap length area-old,
    length-append (area before) (P ++ area after),
    length-append P (area after),
  )

  end-new : end_of (area_offset trait core) new_items ≡ end_of position after
  end-new =
      omega (arith, ap length (area-append before after), length-append (area before) (area after))

  -- The registry without the item's record, before and after the move.
  abbrev pub bare_registry : ℕ → PluginRegistryV1
  bare_registry = apart (area_offset trait core) before after

  registry-new : bare_registry position ≡ registry_of trait core new_items
  registry-new =
      ap₂ (λ rs es. record { key = plugin_registry_v1; registry = rs; external_registry = es })
        (sym (records-append (area_offset trait core) before after))
        (sym (external_records-append (area_offset trait core) before after))

  module _ (record_size : ℕ) (laid_out : IsLaidOut trait core accounts.account old_items)
      (coded : IsCodedMeta trait core old_items) (coded' : IsCodedMeta trait core new_items)
      (some_bytes : 0 < length P)
      (registry_size : registry_len (registry_of trait core old_items)
        ≡ registry_len (registry_of trait core new_items) + record_size)
      (bound : length (layout trait core old_items) < 2 ^ 63) where
    abbrev C : List ℕ
    C = trait.serialize core

    abbrev H : List ℕ
    H = header_account.serialize (header_of trait core old_items)

    abbrev H' : List ℕ
    H' = header_account.serialize (header_of trait core new_items)

    abbrev R : List ℕ
    R = registry_account.serialize (registry_of trait core old_items)

    abbrev R' : List ℕ
    R' = registry_account.serialize (registry_of trait core new_items)

    abbrev tail : List ℕ
    tail = drop (length R') (drop (length (area after)) (P ++ (area after ++ R)))

    abbrev new_size : ℕ
    new_size = length (layout trait core new_items)

    size-old : length (layout trait core old_items) ≡ new_size + length P + record_size
    size-old = omega (
      arith,
      length-layout trait core old_items coded,
      length-layout trait core new_items coded',
      registry_size,
      end-old,
      end-new,
    )

    moved :
        host.sol_memmove accounts.account.bytes position (position + length P) (length (area after))
        ≡ C
          ++ (H
              ++ (area before
                  ++ (area after ++ drop (length (area after)) (P ++ (area after ++ R)))))
    moved =
        ap (λ bytes. host.sol_memmove bytes position (position + length P) (length (area after)))
          (laid_out.stored ∙ ap (λ a. C ++ (H ++ (a ++ R))) area-old)
        ∙ moved-stored C H (area before) P (area after) R H' R' runtime position (
            omega (
              arith,
              coded.core_coded.sized,
              coded.header_coded.sized,
              length-append C (H ++ area before),
              length-append H (area before),
            ))

    closed_saves :
        (account : AccountInfo)
        → account.bytes
          ≡ C
            ++ (H
                ++ (area before
                    ++ (area after ++ drop (length (area after)) (P ++ (area after ++ R)))))
        → (write_bytes H' (trait.len core) account >>= λ headed.
            write_bytes R' (end_of position after) headed)
          ≡ ok (with_bytes account (layout trait core new_items ++ tail))
    closed_saves account stored =
        two_saves C H (area before) P (area after) R H' R' account stored
          (omega (arith, coded.header_coded.sized, coded'.header_coded.sized))
          (omega (arith, coded.registry_coded.sized, coded'.registry_coded.sized, registry_size))
          (omega (arith, coded.core_coded.sized))
          (omega (
            arith,
            coded.core_coded.sized,
            coded'.header_coded.sized,
            length-append C (H' ++ (area before ++ area after)),
            length-append H' (area before ++ area after),
            length-append (area before) (area after),
          ))
        ∙ ap (λ a. ok (with_bytes account ((C ++ (H' ++ (a ++ R'))) ++ tail)))
            (sym (area-append before after))

    pub remove_stored-closes :
        IsRefundable runtime system_program new_size accounts
        → remove_stored trait core position (length P) record_size system_program (record {
          header = header_of trait core old_items;
          registry = bare_registry (position + length P);
          accounts = accounts;
        })
          ≡ ok (with_items trait core new_items (refunded runtime system_program new_size accounts))
    remove_stored-closes refundable =
        let all = layout trait core new_items ++ tail in
        let tail_size : length tail ≡ length P + record_size = omega (
          arith,
          length-drop (length R') (drop (length (area after)) (P ++ (area after ++ R))),
          length-drop (length (area after)) (P ++ (area after ++ R)),
          length-append P (area after ++ R),
          length-append (area after) R,
          coded.registry_coded.sized,
          coded'.registry_coded.sized,
          registry_size,
        ) in
        let before_size = ap length laid_out.stored ∙ size-old in
        let shrunk =
          resize_or_reallocate_account-shrinks runtime system_program new_size accounts all
            (omega
              (arith, length-append (layout trait core new_items) tail, tail_size, before_size))
            (omega (arith, before_size)) refundable in
        let bumped =
          bump_offsets-closes (area_offset trait core) before after (length P) some_bytes
            (omega (arith, end-old, length-layout trait core old_items coded)) in
        let saved =
          closed_saves
            (with_bytes accounts.account (
              host.sol_memmove accounts.account.bytes position (position + length P)
                (length (area after))))
            moved in
        ground (
          arith,
          shrunk,
          bumped,
          saved,
          before_size,
          end-old,
          end-new,
          registry-new,
          length-layout trait core old_items coded,
          length-layout trait core new_items coded',
          take-append (layout trait core new_items) tail,
        )
