-- ===== src/Storage/RemovedAdapters.antt =====
-- programs/mpl-core/src/plugins/utils.rs: `delete_external_plugin_adapter` implements the removal of an
-- external adapter from the list.
use mpl_core.Prelude.{
  ap₂, ap, ◌∙◌, ℕ, ◌+◌, ◌^◌, ◌<◌, ◌≡◌, refl, arith, true, false, List, [], ◌∷◌, ◌++◌, some, length,
  length-append, append_assoc,
}
use Prim.Native.Nat.{suc}
use mpl_core.Error.{ok}
use mpl_core.State.{AccountInfo, plugin_registry_v1}
use mpl_core.External.{ExternalPluginAdapterKey}
use mpl_core.External.Infos.{unwrap_or}
use mpl_core.Registry.{ExternalRegistryRecord, external_record_len}
use mpl_core.Registry.Evaluate.{from_record}
use mpl_core.Host.{Host}
use mpl_core.Loading.{SolanaAccount, load_external, registry_account}
use mpl_core.Storage.Accounts.{Accounts}
use mpl_core.Storage.Runtime.{IsRuntime, IsRefundable, refunded}
use mpl_core.Storage.AdapterKeys.{check_plugin_key, external_key_eq, find_external_plugin_adapter}
use mpl_core.Storage.Adapters.{delete_external_plugin_adapter, remove_at}
use mpl_core.Storage.NewAdapters.{check_plugin_key-from_record}
use mpl_core.Storage.Layout.{
  Item, internal, external, StoredAdapter, next, area, item_bytes, records, external_records,
  external_record, area_offset, registry_of, layout, with_items, data_bytes, data_size, IsCodedMeta,
  IsLaidOut,
}
use mpl_core.Storage.Codec.{ReadsBack}
use mpl_core.Storage.Sizes.{
  area-append, records-append, external_records-append, registry_len-insert, external_record_len-at,
  length-layout, end_of,
}
use mpl_core.Storage.Reading.{load_plugin_meta-laid_out, is_longer-laid_out}
use mpl_core.Storage.Fetching.{slice_from-item}
use mpl_core.Storage.Closing.{remove_stored-closes}

-- How many of the items are external adapters.
abbrev count : List Item → ℕ
count [] = 0
count (internal _ _ ∷ items) = count items
count (external _ ∷ items) = count items + 1

one_more : (n : ℕ) → n + 1 ≡ suc n
one_more n = omega arith

remove_at-later :
    (n : ℕ) (r : ExternalRegistryRecord) (rs : List ExternalRegistryRecord)
    → remove_at (n + 1) (r ∷ rs) ≡ r ∷ remove_at n rs
remove_at-later n r rs = ap (λ m. remove_at m (r ∷ rs)) (one_more n)

module _ ⦃host : Host⦄ (account : AccountInfo) (key : ExternalPluginAdapterKey) where
  -- The external adapters among the items, stored from an offset on, have other keys.
  abbrev pub AreOthers : ℕ → List Item → Type 0
  AreOthers offset [] = Unit {0}
  AreOthers offset (internal authority plugin ∷ items) =
      AreOthers (next offset (internal authority plugin)) items
  AreOthers offset (external e ∷ items) =
      ((k : ExternalPluginAdapterKey) × (from_record account (external_record offset e) ≡ ok k)
        × (external_key_eq k key ≡ false))
      × AreOthers (next offset (external e)) items

  find-append :
      (offset : ℕ) (before : List Item) (r : ExternalRegistryRecord)
      (rest : List ExternalRegistryRecord)
      → AreOthers offset before
      → check_plugin_key r key account ≡ ok true
      → find_external_plugin_adapter (external_records offset before ++ (r ∷ rest)) key account
        ≡ ok (some (count before, r))
  find-append offset [] r rest others same = ground (arith, same)
  find-append offset (internal a p ∷ before) r rest others same =
      find-append (next offset (internal a p)) before r rest others same
  find-append offset (external e ∷ before) r rest ((k, read, other), others) same = ground (
    arith,
    check_plugin_key-from_record account (external_record offset e) k key read,
    other,
    find-append (next offset (external e)) before r rest others same,
  )

  remove_at-append :
      (offset : ℕ) (before : List Item) (r : ExternalRegistryRecord)
      (rest : List ExternalRegistryRecord)
      → remove_at (count before) (external_records offset before ++ (r ∷ rest))
        ≡ external_records offset before ++ rest
  remove_at-append offset [] r rest = refl
  remove_at-append offset (internal a p ∷ before) r rest =
      remove_at-append (next offset (internal a p)) before r rest
  remove_at-append offset (external e ∷ before) r rest =
      remove_at-later (count before) (external_record offset e)
        (external_records (next offset (external e)) before ++ (r ∷ rest))
      ∙ ap (λ rs. external_record offset e ∷ rs)
          (remove_at-append (next offset (external e)) before r rest)

data_len_of :
    ⦃host : Host⦄ (e : StoredAdapter)
    → unwrap_or (data_size e.adapter_data) 0 ≡ length (data_bytes e.adapter_data)
data_len_of e = ground arith

module _ ⦃host : Host⦄ (runtime : IsRuntime host) {T : Type 0} (trait : SolanaAccount T) (core : T)
    (before after : List Item) (e : StoredAdapter) (system_program : AccountInfo)
    (accounts : Accounts) (key : ExternalPluginAdapterKey) where
  abbrev old_items : List Item
  old_items = before ++ (external e ∷ after)

  abbrev new_items : List Item
  new_items = before ++ after

  abbrev at : ℕ
  at = end_of (area_offset trait core) before

  abbrev after_item : ℕ
  after_item = at + length (item_bytes (external e))

  -- The adapter is read back, it is not empty, and its record is stored in as many bytes as its length says.
  pub record IsCodedAdapter : Type 0 where
    pub reads_back : ReadsBack host.decode_external (host.encode_external e.adapter) e.adapter
    pub some_bytes : 0 < length (item_bytes (external e))
    pub record_sized :
        length (host.encode_external_record (external_record at e))
        ≡ external_record_len (external_record at e)

  registry-found : registry_of trait core old_items ≡ record {
    key = plugin_registry_v1;
    registry = records (area_offset trait core) before ++ records after_item after;
    external_registry =
        external_records (area_offset trait core) before
        ++ (external_record at e ∷ external_records after_item after);
  }
  registry-found =
      ap₂ (λ rs es. record { key = plugin_registry_v1; registry = rs; external_registry = es })
        (records-append (area_offset trait core) before (external e ∷ after))
        (external_records-append (area_offset trait core) before (external e ∷ after))

  module _ (laid_out : IsLaidOut trait core accounts.account old_items)
      (coded : IsCodedMeta trait core old_items) (adapter_coded : IsCodedAdapter) where
    load_external-stored : load_external accounts.account at ≡ ok e.adapter
    unfolding load_external
    load_external-stored = ground (
      arith,
      slice_from-item trait core accounts.account before after (external e) laid_out coded,
      adapter_coded.reads_back (
          data_bytes e.adapter_data
          ++ (area after ++ registry_account.serialize (registry_of trait core old_items))),
      reassociated,
    )
      where
        reassociated :
            (host.encode_external e.adapter ++ data_bytes e.adapter_data)
              ++ (area after ++ registry_account.serialize (registry_of trait core old_items))
            ≡ host.encode_external e.adapter
              ++ (data_bytes e.adapter_data
                  ++ (area after ++ registry_account.serialize (registry_of trait core old_items)))
        reassociated = simp append_assoc refl

    item_size : at + length (item_bytes (external e)) < length (layout trait core old_items)
    item_size = omega (
      arith,
      length-layout trait core old_items coded,
      ap length (area-append before (external e ∷ after)),
      length-append (area before) (item_bytes (external e) ++ area after),
      length-append (item_bytes (external e)) (area after),
    )

    -- On an account that stores a list in which the adapter is the first with the key,
    -- `delete_external_plugin_adapter` succeeds where the rent of the bytes that go can be given back; then the
    -- account stores the list without the adapter and its data, and that rent is the payer's.
    pub delete_external_plugin_adapter-removes :
        IsCodedMeta trait core new_items
        → AreOthers accounts.account key (area_offset trait core) before
        → check_plugin_key (external_record at e) key accounts.account ≡ ok true
        → length (layout trait core old_items) < 2 ^ 63
        → IsRefundable runtime system_program (length (layout trait core new_items)) accounts
        → delete_external_plugin_adapter trait key core system_program accounts
          ≡ ok (
              with_items trait core new_items
                (refunded runtime system_program (length (layout trait core new_items)) accounts))
    unfolding delete_external_plugin_adapter
    delete_external_plugin_adapter-removes coded' others same bound refundable =
        let size = registry_len-insert (area_offset trait core) before (external e) after in
        let found =
          find-append accounts.account key (area_offset trait core) before (external_record at e)
            (external_records after_item after) others same in
        let removed =
          remove_at-append accounts.account key (area_offset trait core) before
            (external_record at e) (external_records after_item after) in
        let closed =
          remove_stored-closes runtime trait core before after (external e) system_program accounts
            (external_record_len (external_record at e)) laid_out coded coded'
            adapter_coded.some_bytes (omega (arith, size, external_record_len-at at 0 e)) bound
            refundable in
        ground (
          arith,
          is_longer-laid_out trait core old_items accounts.account laid_out coded,
          load_plugin_meta-laid_out trait core old_items accounts.account laid_out coded,
          registry-found,
          found,
          removed,
          load_external-stored,
          adapter_coded.record_sized,
          data_len_of e,
          length-append (host.encode_external e.adapter) (data_bytes e.adapter_data),
          item_size,
          closed,
        )
