-- ===== src/Storage/Removed.antt =====
-- programs/mpl-core/src/plugins/utils.rs: `delete_plugin` implements the removal of a plugin from the list.
use mpl_core.Prelude.{
  ℕ, ◌+◌, ◌^◌, ◌<◌, ◌≡◌, refl, ap, ◌∙◌, arith, none, some, List, [], ◌∷◌, ◌++◌, length, ==_refl,
}
use mpl_core.Error.{ok, err, custom, plugin_not_found}
use mpl_core.State.{AccountInfo, Authority, plugin_registry_v1}
use mpl_core.Plugins.{Plugin, PluginType, plugin_type, plugin_type_index, plugin_len}
use mpl_core.Registry.{RegistryRecord, record_len}
use mpl_core.Host.{Host}
use mpl_core.Loading.{SolanaAccount}
use mpl_core.Storage.Accounts.{Accounts}
use mpl_core.Storage.Runtime.{IsRuntime, IsRefundable, refunded}
use mpl_core.Storage.Plugins.{delete_plugin, remove_record}
use mpl_core.Storage.Layout.{
  Item, internal, external, next, records, internal_record, area_offset, registry_of, layout,
  with_items, IsFree, IsCodedMeta, IsCodedPlugin, IsLaidOut,
}
use mpl_core.Storage.Sizes.{records-append, external_records-append, registry_len-insert, end_of}
use mpl_core.Storage.Reading.{load_plugin_meta-laid_out, is_longer-laid_out}
use mpl_core.Storage.Fetching.{load_plugin-stored}
use mpl_core.Storage.Closing.{remove_stored-closes}
use mpl_core.Storage.Moving.{apart}

module _ ⦃host : Host⦄ (t : PluginType) where
  remove_record-free :
      (at : ℕ) (xs : List Item) → IsFree t xs → remove_record t (records at xs) ≡ none
  remove_record-free at [] free = refl
  remove_record-free at (internal a p ∷ xs) (other, free) =
      ground (arith, other, remove_record-free (next at (internal a p)) xs free)
  remove_record-free at (external e ∷ xs) free = remove_record-free (next at (external e)) xs free

  remove_record-append :
      (at : ℕ) (before : List Item) (r : RegistryRecord) (rest : List RegistryRecord)
      → IsFree t before
      → r.plugin_type ≡ t
      → remove_record t (records at before ++ (r ∷ rest)) ≡ some (r, records at before ++ rest)
  remove_record-append at [] r rest free same = ground (arith, ==_refl (plugin_type_index t))
  remove_record-append at (internal a p ∷ before) r rest (other, free) same =
      ground (arith, other, remove_record-append (next at (internal a p)) before r rest free same)
  remove_record-append at (external e ∷ before) r rest free same =
      remove_record-append (next at (external e)) before r rest free same

module _ ⦃host : Host⦄ {T : Type 0} (trait : SolanaAccount T) (core : T)
    (system_program : AccountInfo) (accounts : Accounts) where
  -- `delete_plugin`, on an account that stores a list with no plugin of a type, answers that the plugin is
  -- not found.
  pub delete_plugin-missing :
      (xs : List Item) (t : PluginType)
      → IsLaidOut trait core accounts.account xs
      → IsCodedMeta trait core xs
      → IsFree t xs
      → delete_plugin trait t core system_program accounts ≡ err (custom plugin_not_found)
  unfolding delete_plugin
  delete_plugin-missing xs t laid_out coded free = ground (
    arith,
    is_longer-laid_out trait core xs accounts.account laid_out coded,
    load_plugin_meta-laid_out trait core xs accounts.account laid_out coded,
    remove_record-free t (area_offset trait core) xs free,
  )

  module _ (runtime : IsRuntime host) (before after : List Item) (authority : Authority)
      (plugin : Plugin) where
    abbrev old_items : List Item
    old_items = before ++ (internal authority plugin ∷ after)

    abbrev new_items : List Item
    new_items = before ++ after

    abbrev at : ℕ
    at = end_of (area_offset trait core) before

    abbrev of_plugin : RegistryRecord
    of_plugin = internal_record at authority plugin

    registry-without :
        record (registry_of trait core old_items) {
          registry =
              records (area_offset trait core) before
              ++ records (at + length (host.encode_plugin plugin)) after;
        }
        ≡ apart (area_offset trait core) before after (at + length (host.encode_plugin plugin))
    registry-without =
        ap
          (λ es. record {
            key = plugin_registry_v1;
            registry =
                records (area_offset trait core) before
                ++ records (at + length (host.encode_plugin plugin)) after;
            external_registry = es;
          })
          (external_records-append (area_offset trait core) before
            (internal authority plugin ∷ after))

    -- `delete_plugin`, on an account that stores a list in which the plugin is the first of its type,
    -- succeeds where the rent of the bytes that go can be given back; then the account stores the list
    -- without the plugin, and that rent is the payer's.
    pub delete_plugin-removes :
        IsLaidOut trait core accounts.account old_items
        → IsCodedMeta trait core old_items
        → IsCodedMeta trait core new_items
        → IsCodedPlugin plugin
        → length (host.encode_record of_plugin) ≡ record_len of_plugin
        → IsFree (plugin_type plugin) before
        → length (layout trait core old_items) < 2 ^ 63
        → IsRefundable runtime system_program (length (layout trait core new_items)) accounts
        → delete_plugin trait (plugin_type plugin) core system_program accounts
          ≡ ok (
              with_items trait core new_items
                (refunded runtime system_program (length (layout trait core new_items)) accounts))
    unfolding delete_plugin plugin_len
    delete_plugin-removes laid_out coded coded' plugin_coded record_coded free bound refundable =
        let found =
          ap (remove_record (plugin_type plugin))
            (records-append (area_offset trait core) before (internal authority plugin ∷ after))
          ∙ remove_record-append (plugin_type plugin) (area_offset trait core) before of_plugin
              (records (at + length (host.encode_plugin plugin)) after) free refl in
        let size =
          registry_len-insert (area_offset trait core) before (internal authority plugin) after in
        let closed =
          remove_stored-closes runtime trait core before after (internal authority plugin)
            system_program accounts (record_len of_plugin) laid_out coded coded'
            (omega (arith, plugin_coded.sized)) (omega (arith, size)) bound refundable in
        ground (
          arith,
          is_longer-laid_out trait core old_items accounts.account laid_out coded,
          load_plugin_meta-laid_out trait core old_items accounts.account laid_out coded,
          found,
          load_plugin-stored trait core accounts.account before after authority plugin laid_out
              coded plugin_coded,
          record_coded,
          registry-without,
          closed,
        )
