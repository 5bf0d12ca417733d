-- ===== src/Storage/Fetching.antt =====
-- programs/mpl-core/src/plugins/utils.rs: `fetch_wrapped_plugin` finds a plugin of the list.
use mpl_core.Prelude.{
  ap₂, ==_refl, ℕ, ◌≡◌, refl, ap, ◌∙◌, arith, none, some, List, ◌∷◌, ◌++◌, length, length-append,
  append_assoc,
}
use mpl_core.Error.{ok, err, custom, plugin_not_found}
use mpl_core.State.{AccountInfo, Authority}
use mpl_core.Plugins.{plugin_type_index, Plugin, PluginType, plugin_type}
use mpl_core.Host.{Host}
use mpl_core.Loading.{
  load_plugin, SolanaAccount, fetch_wrapped_plugin, find_record, header_account, registry_account,
  slice_from,
}
use mpl_core.Storage.Codec.{slice_from-append}
use mpl_core.Storage.Layout.{
  item_bytes, Item, internal, area, area_offset, header_of, registry_of, internal_record, IsFree,
  IsCodedMeta, IsCodedPlugin, IsLaidOut,
}
use mpl_core.Storage.Sizes.{area-append, records-append, end_of}
use mpl_core.Storage.Reading.{
  load_plugin_meta-laid_out, core_or_load-laid_out, find_record-free, find_record-append,
}

module _ ⦃host : Host⦄ {T : Type 0} (trait : SolanaAccount T) (core : T)
    (account : AccountInfo) where
  -- `fetch_wrapped_plugin`, on an account that stores a list with no plugin of a type, answers that the
  -- plugin is not found.
  pub fetch_wrapped_plugin-missing :
      (items : List Item) (t : PluginType)
      → IsLaidOut trait core account items
      → IsCodedMeta trait core items
      → IsFree t items
      → fetch_wrapped_plugin trait account none t ≡ err (custom plugin_not_found)
  unfolding fetch_wrapped_plugin
  fetch_wrapped_plugin-missing items t laid_out coded free = ground (
    arith,
    core_or_load-laid_out trait core items account laid_out coded,
    load_plugin_meta-laid_out trait core items account laid_out coded,
    find_record-free t (area_offset trait core) items free,
  )

  module _ (before after : List Item) (item : Item) where
    abbrev items' : List Item
    items' = before ++ (item ∷ after)

    abbrev position' : ℕ
    position' = end_of (area_offset trait core) before

    pub slice_from-item :
        IsLaidOut trait core account items'
        → IsCodedMeta trait core items'
        → slice_from account.bytes position'
          ≡ ok (
              item_bytes item
              ++ (area after ++ registry_account.serialize (registry_of trait core items')))
    slice_from-item laid_out coded =
        let C = trait.serialize core in
        let H = header_account.serialize (header_of trait core items') in
        let R = registry_account.serialize (registry_of trait core items') in
        let P = item_bytes item in
        let at : position' ≡ length (C ++ (H ++ area before)) = omega (
          arith,
          coded.core_coded.sized,
          coded.header_coded.sized,
          length-append C (H ++ area before),
          length-append H (area before),
        ) in
        let split : C ++ (H ++ ((area before ++ (P ++ area after)) ++ R))
            ≡ (C ++ (H ++ area before)) ++ (P ++ (area after ++ R)) =
          simp append_assoc refl in
        ap₂ slice_from
          (laid_out.stored
            ∙ ap (λ a. C ++ (H ++ (a ++ R))) (area-append before (item ∷ after))
            ∙ split)
          at
        ∙ slice_from-append (C ++ (H ++ area before)) (P ++ (area after ++ R))

  module _ (before after : List Item) (authority : Authority) (plugin : Plugin) where
    abbrev pub items : List Item
    items = before ++ (internal authority plugin ∷ after)

    abbrev pub position : ℕ
    position = end_of (area_offset trait core) before

    pub find_record-stored :
        IsFree (plugin_type plugin) before
        → find_record (plugin_type plugin) (registry_of trait core items).registry
          ≡ some (internal_record position authority plugin)
    find_record-stored free =
        ap (find_record (plugin_type plugin))
          (records-append (area_offset trait core) before (internal authority plugin ∷ after))
        ∙ find_record-append (plugin_type plugin) (area_offset trait core) before _ free
        ∙ ground (arith, ==_refl (plugin_type_index (plugin_type plugin)))

    pub slice_from-stored :
        IsLaidOut trait core account items
        → IsCodedMeta trait core items
        → slice_from account.bytes position
          ≡ ok (
              host.encode_plugin plugin
              ++ (area after ++ registry_account.serialize (registry_of trait core items)))
    slice_from-stored = slice_from-item before after (internal authority plugin)

    pub load_plugin-stored :
        IsLaidOut trait core account items
        → IsCodedMeta trait core items
        → IsCodedPlugin plugin
        → load_plugin account position ≡ ok plugin
    unfolding load_plugin
    load_plugin-stored laid_out coded plugin_coded = ground (
      arith,
      slice_from-stored laid_out coded,
      plugin_coded.reads_back
          (area after ++ registry_account.serialize (registry_of trait core items)),
    )

    -- `fetch_wrapped_plugin`, on an account that stores a list of plugins, gives the first plugin of a type
    -- with its authority, wherever in the list it stands.
    pub fetch_wrapped_plugin-stored :
        IsLaidOut trait core account items
        → IsCodedMeta trait core items
        → IsCodedPlugin plugin
        → IsFree (plugin_type plugin) before
        → fetch_wrapped_plugin trait account none (plugin_type plugin) ≡ ok (authority, plugin)
    unfolding fetch_wrapped_plugin
    fetch_wrapped_plugin-stored laid_out coded plugin_coded free = ground (
      arith,
      core_or_load-laid_out trait core items account laid_out coded,
      load_plugin_meta-laid_out trait core items account laid_out coded,
      find_record-stored free,
      slice_from-stored laid_out coded,
      plugin_coded.reads_back
          (area after ++ registry_account.serialize (registry_of trait core items)),
    )

    -- The same, where the core data is given.
    pub fetch_wrapped_plugin-given :
        IsLaidOut trait core account items
        → IsCodedMeta trait core items
        → IsCodedPlugin plugin
        → IsFree (plugin_type plugin) before
        → fetch_wrapped_plugin trait account (some core) (plugin_type plugin)
          ≡ ok (authority, plugin)
    unfolding fetch_wrapped_plugin
    fetch_wrapped_plugin-given laid_out coded plugin_coded free = ground (
      arith,
      load_plugin_meta-laid_out trait core items account laid_out coded,
      find_record-stored free,
      slice_from-stored laid_out coded,
      plugin_coded.reads_back
          (area after ++ registry_account.serialize (registry_of trait core items)),
    )
