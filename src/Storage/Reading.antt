-- ===== src/Storage/Reading.antt =====
-- programs/mpl-core/src/utils/mod.rs and plugins/utils.rs: what is read from an account that stores a
-- list of plugins.
use mpl_core.Prelude.{
  ◌==◌, append-nil, ℕ, ◌≡◌, refl, ap, sym, ◌∙◌, arith, false, none, some, List, [], ◌∷◌, ◌++◌,
  length, length-append, append_assoc,
}
use mpl_core.Error.{ok}
use mpl_core.State.{AccountInfo, data_len}
use mpl_core.Plugins.{PluginType}
use mpl_core.Registry.{RegistryRecord}
use mpl_core.Host.{Host}
use mpl_core.Loading.{
  SolanaAccount, load, load_plugin_meta, fetch_core_data, find_record, header_account,
  registry_account, core_or_load,
}
use mpl_core.Storage.Codec.{load-coded}
use mpl_core.Storage.Layout.{
  Item, internal, external, area, next, records, area_offset, header_of, registry_of, IsFree,
  IsCodedMeta, IsLaidOut,
}
use mpl_core.Storage.Sizes.{end_of, length-layout}

module _ ⦃host : Host⦄ {T : Type 0} (trait : SolanaAccount T) (core : T) (items : List Item)
    (account : AccountInfo) (laid_out : IsLaidOut trait core account items)
    (coded : IsCodedMeta trait core items) where
  abbrev C : List ℕ
  C = trait.serialize core

  abbrev H : List ℕ
  H = header_account.serialize (header_of trait core items)

  abbrev R : List ℕ
  R = registry_account.serialize (registry_of trait core items)

  pub core-laid_out : load trait account 0 ≡ ok core
  core-laid_out =
      load-coded trait account core [] (H ++ (area items ++ R)) coded.core_coded laid_out.owned
        laid_out.stored

  header-laid_out : load header_account account (trait.len core) ≡ ok (header_of trait core items)
  header-laid_out =
      ap (load header_account account) (sym coded.core_coded.sized)
      ∙ load-coded header_account account (header_of trait core items) C (area items ++ R)
          coded.header_coded laid_out.owned laid_out.stored

  registry-laid_out :
      load registry_account account (end_of (area_offset trait core) items)
      ≡ ok (registry_of trait core items)
  registry-laid_out =
      ap (load registry_account account) at_end
      ∙ load-coded registry_account account (registry_of trait core items) (C ++ (H ++ area items))
          [] coded.registry_coded laid_out.owned
          (laid_out.stored ∙ simp (append_assoc, append-nil) refl)
    where
      at_end : end_of (area_offset trait core) items ≡ length (C ++ (H ++ area items))
      at_end = omega (
        arith,
        coded.core_coded.sized,
        coded.header_coded.sized,
        length-append C (H ++ area items),
        length-append H (area items),
      )

  pub load_plugin_meta-laid_out :
      load_plugin_meta trait account core
      ≡ ok (header_of trait core items, registry_of trait core items)
  load_plugin_meta-laid_out = ground (arith, header-laid_out, registry-laid_out)

  pub is_longer-laid_out : (trait.len core == data_len account) ≡ false
  is_longer-laid_out =
      ground (arith, ap length laid_out.stored, length-layout trait core items coded)

  -- `fetch_core_data`, on an account that stores a list of plugins, gives its core data, the header and the
  -- registry of the list.
  pub fetch_core_data-laid_out :
      fetch_core_data trait account
      ≡ ok (core, some (header_of trait core items), some (registry_of trait core items))
  unfolding fetch_core_data
  fetch_core_data-laid_out =
      ground (arith, core-laid_out, is_longer-laid_out, load_plugin_meta-laid_out)

  pub core_or_load-laid_out : core_or_load trait account none ≡ ok core
  core_or_load-laid_out = ground (arith, core-laid_out, is_longer-laid_out)

module _ ⦃host : Host⦄ (t : PluginType) where
  pub find_record-free :
      (at : ℕ) (items : List Item) → IsFree t items → find_record t (records at items) ≡ none
  find_record-free at [] free = refl
  find_record-free at (internal a p ∷ items) (other, free) =
      ground (arith, other, find_record-free (next at (internal a p)) items free)
  find_record-free at (external e ∷ items) free = find_record-free (next at (external e)) items free

  pub find_record-append :
      (at : ℕ) (before : List Item) (rest : List RegistryRecord)
      → IsFree t before
      → find_record t (records at before ++ rest) ≡ find_record t rest
  find_record-append at [] rest free = refl
  find_record-append at (internal a p ∷ before) rest (other, free) =
      ground (arith, other, find_record-append (next at (internal a p)) before rest free)
  find_record-append at (external e ∷ before) rest free =
      find_record-append (next at (external e)) before rest free
