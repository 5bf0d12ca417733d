-- ===== src/Storage/Added.antt =====
-- programs/mpl-core/src/plugins/utils.rs: `initialize_plugin` implements the addition of a plugin to the
-- end of the list.
use mpl_core.Prelude.{
  ℕ, ◌+◌, ◌^◌, ◌<◌, ◌≡◌, ap, sym, ◌++◌, ◌-◌, repeated, fitted, take-past, length-repeated,
  length-append, ◌∙◌, List, length, arith,
}
use mpl_core.Error.{Result, ok, ◌>>=◌, >>=-cong}
use mpl_core.State.{Authority, AccountInfo}
use mpl_core.Plugins.{Plugin, plugin_type, plugin_len}
use mpl_core.Registry.{record_len}
use mpl_core.Host.{Host}
use mpl_core.Loading.{SolanaAccount, header_account, registry_account}
use mpl_core.Storage.Accounts.{
  with_bytes, Accounts, save, save_plugin, resize_or_reallocate_account,
}
use mpl_core.Storage.Meta.{Meta, with_account}
use mpl_core.Storage.Runtime.{IsRuntime, resize_or_reallocate_account-IsResized}
use mpl_core.Storage.Plugins.{initialize_plugin}
use mpl_core.Storage.Layout.{
  Item, area, layout, area_offset, header_of, registry_of, internal_record, meta_of, with_items,
  IsFree, IsLaidOut, IsCodedMeta, IsCodedPlugin,
}
use mpl_core.Storage.Sizes.{end_of, length-layout}
use mpl_core.Storage.Adding.{
  added, end-added, registry_len-added, area-added, registry-added, free-any, saved, three_saves,
}

module _ ⦃host : Host⦄ (runtime : IsRuntime host) {T : Type 0} (trait : SolanaAccount T) (core : T)
    (items : List Item) (authority : Authority) (plugin : Plugin) (system_program : AccountInfo)
    (accounts : Accounts) where
  abbrev new_items : List Item
  new_items = added trait core items authority plugin

  abbrev new_size : ℕ
  new_size = length (layout trait core new_items)

  -- The saves of `initialize_plugin`.
  abbrev store_added : Accounts → Result Meta
  store_added resized =
      let area_end = end_of (area_offset trait core) items in
      let header = header_of trait core new_items in
      let registry = registry_of trait core new_items in
      save header_account header (trait.len core) resized.account >>= λ headed.
      save_plugin plugin area_end headed >>= λ plugged.
      save registry_account registry (area_end + plugin_len plugin) plugged >>= λ registered.
      ok (record {
        header = header;
        registry = registry;
        accounts = with_account resized registered;
      })

  module _ (laid_out : IsLaidOut trait core accounts.account items)
      (coded : IsCodedMeta trait core items) (coded' : IsCodedMeta trait core new_items)
      (plugin_coded : IsCodedPlugin plugin) where
    size_added :
        new_size
        ≡ length (layout trait core items)
          + (plugin_len plugin
              + record_len
                  (internal_record (end_of (area_offset trait core) items) authority plugin))
    size_added = omega (
      arith,
      length-layout trait core items coded,
      length-layout trait core new_items coded',
      end-added trait core items authority plugin plugin_coded,
      registry_len-added trait core items authority plugin,
    )

    initialize_plugin-resizes :
        IsFree (plugin_type plugin) items
        → new_size < 2 ^ 64
        → initialize_plugin plugin authority
            (trait.len core)
            system_program
            (meta_of trait core items accounts)
          ≡ (resize_or_reallocate_account system_program new_size accounts >>= store_added)
    unfolding initialize_plugin
    initialize_plugin-resizes free bound = ground (
      arith,
      free-any trait core items authority plugin (plugin_type plugin) (area_offset trait core) items
          free,
      size_added,
      ap length laid_out.stored,
      length-layout trait core items coded,
      end-added trait core items authority plugin plugin_coded,
      registry-added trait core items authority plugin,
    )

    abbrev filling : List ℕ
    filling = repeated 0 (new_size - length (layout trait core items))

    resized-stored :
        (resized : Accounts)
        → resize_or_reallocate_account system_program new_size accounts ≡ ok resized
        → resized.account.bytes ≡ layout trait core items ++ filling
    resized-stored resized success =
        (resize_or_reallocate_account-IsResized runtime system_program new_size accounts resized
          success).resized_bytes
        ∙ ap (fitted 0 new_size) laid_out.stored
        ∙ ap (λ first. first ++ filling)
            (take-past new_size (layout trait core items) (omega (arith, size_added)))

    three_saves-added :
        (resized : Accounts)
        → resize_or_reallocate_account system_program new_size accounts ≡ ok resized
        → saved
            (trait.serialize core)
            (header_account.serialize (header_of trait core items))
            (area items)
            (registry_account.serialize (registry_of trait core items))
            filling
            (header_account.serialize (header_of trait core new_items))
            (host.encode_plugin plugin)
            (registry_account.serialize (registry_of trait core new_items))
            resized.account
            (trait.len core)
            (end_of (area_offset trait core) items)
            (end_of (area_offset trait core) items + plugin_len plugin)
          ≡ ok (with_bytes resized.account (layout trait core new_items))
    three_saves-added resized success =
        let C = trait.serialize core in
        let A = area items in
        let H' = header_account.serialize (header_of trait core new_items) in
        let P = host.encode_plugin plugin in
        three_saves C (header_account.serialize (header_of trait core items)) A
          (registry_account.serialize (registry_of trait core items)) filling H' P
          (registry_account.serialize (registry_of trait core new_items)) resized.account
          (resized-stored resized success)
          (omega (arith, coded.header_coded.sized, coded'.header_coded.sized))
          (omega (
            arith,
            size_added,
            plugin_coded.sized,
            coded.registry_coded.sized,
            coded'.registry_coded.sized,
            registry_len-added trait core items authority plugin,
            length-repeated {A = ℕ} 0 (new_size - length (layout trait core items)),
          ))
          (omega (arith, coded.core_coded.sized))
          (omega (
            arith,
            coded.core_coded.sized,
            coded'.header_coded.sized,
            length-append C (H' ++ A),
            length-append H' A,
          ))
          (omega (
            arith,
            coded.core_coded.sized,
            coded'.header_coded.sized,
            plugin_coded.sized,
            length-append (C ++ (H' ++ A)) P,
            length-append C (H' ++ A),
            length-append H' A,
          ))
        ∙ ap
            (λ a. ok (
              with_bytes resized.account (
                C ++ (H' ++ (a ++ registry_account.serialize (registry_of trait core new_items))))))
            (sym (area-added trait core items authority plugin))

    store_added-stores :
        (resized : Accounts)
        → resize_or_reallocate_account system_program new_size accounts ≡ ok resized
        → store_added resized
          ≡ ok (meta_of trait core new_items (with_items trait core new_items resized))
    store_added-stores resized success = ground (arith, three_saves-added resized success)

    -- `initialize_plugin`, on an account that stores a list of plugins and external adapters, none of the
    -- plugin's type, and within the bounds of `usize`: it fails only where
    -- `resize_or_reallocate_account` does, and then the account stores the list with the plugin at its
    -- end, and the header and registry returned are those of this list.
    pub initialize_plugin-appends :
        IsFree (plugin_type plugin) items
        → new_size < 2 ^ 64
        → initialize_plugin plugin authority
            (trait.len core)
            system_program
            (meta_of trait core items accounts)
          ≡ (resize_or_reallocate_account system_program new_size accounts >>= λ resized.
              ok (meta_of trait core new_items (with_items trait core new_items resized)))
    initialize_plugin-appends free bound =
        initialize_plugin-resizes free bound
        ∙ >>=-cong (resize_or_reallocate_account system_program new_size accounts) store_added _
            store_added-stores
