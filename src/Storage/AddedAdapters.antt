-- ===== src/Storage/AddedAdapters.antt =====
-- programs/mpl-core/src/plugins/utils.rs: `initialize_external_plugin_adapter` implements the addition of an
-- external adapter to the end of the list.
use mpl_core.Prelude.{
  sym, length-repeated, take-past, length-append, fitted, ◌∙◌, ◌-◌, ◌++◌, repeated, ℕ, ◌+◌, ◌^◌,
  ◌<◌, ◌≡◌, ap, List, Option, length, arith,
}
use mpl_core.Error.{
  not_available, custom, >>=-cong, guard, ok-injective, Result, ok, ◌>>=◌, >>=-succeeds,
}
use mpl_core.State.{AccountInfo, Authority}
use mpl_core.External.Infos.{key_of, ExternalPluginAdapterInitInfo, LifecycleChecks, adapter_of}
use mpl_core.Registry.{ExternalRegistryRecord, external_record_len}
use mpl_core.Host.{Host}
use mpl_core.Loading.{SolanaAccount, header_account, registry_account}
use mpl_core.Storage.Accounts.{
  with_bytes, Accounts, save, save_external, resize_or_reallocate_account,
}
use mpl_core.Storage.Meta.{Meta, with_account}
use mpl_core.Storage.Runtime.{resize_or_reallocate_account-IsResized, IsRuntime}
use mpl_core.Storage.Adapters.{
  hooks_of, is_available, initialize_external_plugin_adapter, record_of, add_adapter, is_new,
  append_data,
}
use mpl_core.Storage.Layout.{
  area, with_items, Item, external_record, layout, area_offset, header_of, registry_of, meta_of,
  data_bytes, IsLaidOut, IsCodedMeta,
}
use mpl_core.Storage.Sizes.{end_of, length-layout}
use mpl_core.Storage.RemovedAdapters.{AreOthers}
use mpl_core.Storage.OtherKeys.{is_new-others, others-is_new}
use mpl_core.Storage.NewItems.{
  hooks_of-IsInitializable, hooks_of-AreGiven, IsInitializable, IsAppendable, AreGiven, item_of,
  record_of-item, record_len-draft, own_len_lem, appended_lem,
}
use mpl_core.Storage.AddingAdapters.{
  area-adapted, four_saves, saved, adapted, registry-adapted, end-adapted, registry_len-adapted,
}

module _ ⦃host : Host⦄ where
  -- Every record is stored in as many bytes as its length says.
  abbrev pub AreRecordsSized : Type 0
  AreRecordsSized =
      (r : ExternalRegistryRecord) → length (host.encode_external_record r) ≡ external_record_len r

  module _ (runtime : IsRuntime host) {T : Type 0} (trait : SolanaAccount T) (core : T)
      (items : List Item) (info : ExternalPluginAdapterInitInfo) (appended : Option (List ℕ))
      (system_program : AccountInfo) (accounts : Accounts) where
    abbrev new_items : List Item
    new_items = adapted trait core items (item_of info appended)

    abbrev new_size : ℕ
    new_size = length (layout trait core new_items)

    abbrev area_end : ℕ
    area_end = end_of (area_offset trait core) items

    abbrev P : List ℕ
    P = host.encode_external (adapter_of info)

    -- The writes of `initialize_external_plugin_adapter`.
    abbrev store_added : Accounts → Result Meta
    store_added resized =
        let header = header_of trait core new_items in
        let registry = registry_of trait core new_items in
        save header_account header (trait.len core) resized.account >>= λ headed.
        save_external (adapter_of info) area_end headed >>= λ plugged.
        append_data appended (area_end + length P) plugged >>= λ filled.
        save registry_account registry (area_end + length P + length (data_bytes appended)) filled
        >>= λ registered. ok (record {
          header = header;
          registry = registry;
          accounts = with_account resized registered;
        })

    abbrev run : Result Meta
    run =
        initialize_external_plugin_adapter info (trait.len core) system_program appended
          (meta_of trait core items accounts)

    -- An adapter was created as it should be, and stored behind the others.
    pub record IsAdapterAdded (meta' : Meta) : Type 0 where
      pub initializable : IsInitializable info
      pub others : AreOthers accounts.account (key_of info) (area_offset trait core) items
      pub resized : Accounts
      pub was_resized : resize_or_reallocate_account system_program new_size accounts ≡ ok resized
      pub stored : meta' ≡ meta_of trait core new_items (with_items trait core new_items resized)

    module _ (laid_out : IsLaidOut trait core accounts.account items)
        (coded : IsCodedMeta trait core items) (coded' : IsCodedMeta trait core new_items)
        (records_sized : AreRecordsSized) (appendable : IsAppendable info appended) where
      data_size :
          length (data_bytes (item_of info appended).adapter_data) ≡ length (data_bytes appended)
      data_size = ap length (appended_lem info appended appendable)

      end_added :
          end_of (area_offset trait core) new_items
          ≡ area_end + length P + length (data_bytes appended)
      end_added = omega (arith, end-adapted trait core items (item_of info appended), data_size)

      size_added :
          new_size
          ≡ length (layout trait core items)
            + (length P
                + external_record_len (external_record area_end (item_of info appended))
                + length (data_bytes appended))
      size_added = omega (
        arith,
        length-layout trait core items coded,
        length-layout trait core new_items coded',
        end_added,
        registry_len-adapted trait core items (item_of info appended),
      )

      add_adapter-resizes :
          (hooks : Option Authority × Option LifecycleChecks)
          → AreGiven info hooks
          → new_size < 2 ^ 64
          → add_adapter info
              (trait.len core)
              system_program
              appended
              (meta_of trait core items accounts)
              hooks
            ≡ (resize_or_reallocate_account system_program new_size accounts >>= store_added)
      add_adapter-resizes hooks given bound = ground (
        arith,
        record_of-item info hooks appended area_end given,
        record_len-draft info hooks appended area_end given,
        records_sized (record_of info hooks appended area_end 0),
        own_len_lem info appended appendable,
        size_added,
        ap length laid_out.stored,
        length-layout trait core items coded,
        end_added,
        registry-adapted trait core items (item_of info appended),
      )

      abbrev filling : List ℕ
      filling = repeated 0 (new_size - length (layout trait core items))

      resized-stored :
          (resized : Accounts)
          → resize_or_reallocate_account system_program new_size accounts ≡ ok resized
          → resized.account.bytes ≡ layout trait core items ++ filling
      resized-stored resized success =
          (resize_or_reallocate_account-IsResized runtime system_program new_size accounts resized
            success).resized_bytes
          ∙ ap (fitted 0 new_size) laid_out.stored
          ∙ ap (λ first. first ++ filling)
              (take-past new_size (layout trait core items) (omega (arith, size_added)))

      four_saves-added :
          (resized : Accounts)
          → resize_or_reallocate_account system_program new_size accounts ≡ ok resized
          → saved runtime
              (trait.serialize core)
              (header_account.serialize (header_of trait core items))
              (area items)
              (registry_account.serialize (registry_of trait core items))
              filling
              (header_account.serialize (header_of trait core new_items))
              P
              (registry_account.serialize (registry_of trait core new_items))
              appended
              resized.account
              (trait.len core)
              area_end
              (area_end + length P)
              (area_end + length P + length (data_bytes appended))
            ≡ ok (with_bytes resized.account (layout trait core new_items))
      four_saves-added resized success =
          let C = trait.serialize core in
          let A = area items in
          let H' = header_account.serialize (header_of trait core new_items) in
          let R' = registry_account.serialize (registry_of trait core new_items) in
          let D = data_bytes appended in
          let at : area_end ≡ length (C ++ (H' ++ A)) = omega (
            arith,
            coded.core_coded.sized,
            coded'.header_coded.sized,
            length-append C (H' ++ A),
            length-append H' A,
          ) in
          let behind = length-append (C ++ (H' ++ A)) P in
          four_saves runtime C (header_account.serialize (header_of trait core items)) A
            (registry_account.serialize (registry_of trait core items)) filling H' P R' appended
            resized.account (resized-stored resized success)
            (omega (arith, coded.header_coded.sized, coded'.header_coded.sized))
            (omega (
              arith,
              size_added,
              coded.registry_coded.sized,
              coded'.registry_coded.sized,
              registry_len-adapted trait core items (item_of info appended),
              length-repeated {A = ℕ} 0 (new_size - length (layout trait core items)),
            ))
            (omega (arith, coded.core_coded.sized)) at (omega (arith, at, behind))
            (omega (arith, at, behind, length-append (C ++ (H' ++ A) ++ P) D))
          ∙ ap (λ d. ok (with_bytes resized.account (C ++ (H' ++ (A ++ (P ++ d) ++ R')))))
              (sym (appended_lem info appended appendable))
          ∙ ap (λ a. ok (with_bytes resized.account (C ++ (H' ++ (a ++ R')))))
              (sym (area-adapted trait core items (item_of info appended)))

      store_added-stores :
          (resized : Accounts)
          → resize_or_reallocate_account system_program new_size accounts ≡ ok resized
          → store_added resized
            ≡ ok (meta_of trait core new_items (with_items trait core new_items resized))
      store_added-stores resized success = ground (arith, four_saves-added resized success)

      -- From infos that an adapter can be created from, on an account that stores a list of plugins and
      -- external adapters, none of them with the key, and within the bounds of `usize`, data being appended
      -- only to an adapter that keeps some, `initialize_external_plugin_adapter` fails only where
      -- `resize_or_reallocate_account` does; then the account stores the list with the adapter at its end,
      -- with the authority, the checks and the data given, and the header and registry returned are those of
      -- this list.
      pub initialize_external_plugin_adapter-appends :
          IsInitializable info
          → AreOthers accounts.account (key_of info) (area_offset trait core) items
          → new_size < 2 ^ 64
          → run ≡ (
              resize_or_reallocate_account system_program new_size accounts >>= λ resized.
              ok (meta_of trait core new_items (with_items trait core new_items resized)))
      unfolding initialize_external_plugin_adapter
      initialize_external_plugin_adapter-appends initializable others bound =
          let (available, (hooks, hooked, given)) = hooks_of-AreGiven info initializable in
          let new =
            is_new-others accounts.account (key_of info) (area_offset trait core) items others in
          ground (arith, available, hooked, new)
          ∙ add_adapter-resizes hooks given bound
          ∙ >>=-cong (resize_or_reallocate_account system_program new_size accounts) store_added _
              store_added-stores

      -- Where `initialize_external_plugin_adapter` succeeds, on an account that stores a list of plugins and
      -- external adapters and within the bounds of `usize`, and data is appended only to an adapter that keeps some, the infos are not of a lifecycle hook, their checks
      -- are valid, which for an oracle are to reject only, and no stored adapter has the key; then the account,
      -- resized, stores the list with the adapter at its end, as given.
      pub initialize_external_plugin_adapter-IsAdapterAdded :
          (meta' : Meta) → new_size < 2 ^ 64 → run ≡ ok meta' → IsAdapterAdded meta'
      unfolding initialize_external_plugin_adapter
      initialize_external_plugin_adapter-IsAdapterAdded meta' bound h =
          let meta = meta_of trait core items accounts in
          let (u1, passed, h1) =
            >>=-succeeds (guard (is_available info) (custom not_available)) _ h in
          let (u2, new, h2) =
            >>=-succeeds
              (is_new meta.registry.external_registry (key_of info) meta.accounts.account) _ h1 in
          let (hooks, hooked, h3) = >>=-succeeds (hooks_of info) _ h2 in
          let initializable' =
            hooks_of-IsInitializable info hooks (ground (arith, passed)) hooked in
          let others' =
            others-is_new accounts.account (key_of info) (area_offset trait core) items new in
          let (resized', resizes, h4) =
            >>=-succeeds (resize_or_reallocate_account system_program new_size accounts) _
              (sym (initialize_external_plugin_adapter-appends initializable' others' bound) ∙ h) in
          record {
            initializable = initializable';
            others = others';
            resized = resized';
            was_resized = resizes;
            stored = sym (ok-injective h4);
          }
