-- ===== src/Processor/Plugins/Removed.antt =====
-- programs/mpl-core/src/processor/remove_plugin.rs: what a successful removal has checked, and what it
-- leaves.
use mpl_core.Prelude.{
  ap, ℕ, ◌^◌, ◌<◌, ◌≡◌, refl, subst, sym, ◌∙◌, arith, not, some, List, ◌∷◌, ◌++◌, length,
}
use mpl_core.Error.{ok, ok-injective, custom, guard, invalid_plugin, ◌>>=◌, >>=-succeeds, >>=-at}
use mpl_core.State.{AccountInfo, AssetV1, Authority}
use mpl_core.Plugins.{plugin_type_index, Plugin, PluginType, plugin_type, plugin_type_eq}
use mpl_core.Registry.{record_len}
use mpl_core.Host.{Host}
use mpl_core.Loading.{asset_account}
use mpl_core.Permissions.Asset.{validate_asset_permissions}
use mpl_core.Permissions.Granted.{IsGranted, validate_asset_permissions-IsGranted}
use mpl_core.Storage.Accounts.{Accounts, with_bytes}
use mpl_core.Storage.Runtime.{IsRuntime, IsRefundable, refunded}
use mpl_core.Storage.Layout.{
  Item, internal, area_offset, header_of, registry_of, internal_record, layout, with_items, IsFree,
  IsCodedMeta, IsCodedPlugin, IsLaidOut,
}
use mpl_core.Storage.Sizes.{end_of}
use mpl_core.Storage.Reading.{fetch_core_data-laid_out}
use mpl_core.Storage.Fetching.{fetch_wrapped_plugin-given}
use mpl_core.Storage.Removed.{delete_plugin-removes}
use mpl_core.Processor.Plugins.Guards.{
  PluginAccounts, check_accounts, check_uncompressed, increment_seq_and_save, with_next_seq,
  asset_request,
}
use mpl_core.Processor.Plugins.Remove.{remove_plugin, remove_event, plugin_to_remove}
use mpl_core.Processor.Plugins.Sequence.{increment_seq_and_save-stores}

module _ ⦃host : Host⦄ (runtime : IsRuntime host) (ctx : PluginAccounts) (asset : AssetV1)
    (before after : List Item) (plugin_authority : Authority) (plugin : Plugin)
    (result : Accounts) where
  abbrev old_items : List Item
  old_items = before ++ (internal plugin_authority plugin ∷ after)

  abbrev new_items : List Item
  new_items = before ++ after

  -- The accounts with the next sequence number.
  abbrev sequenced : Accounts
  sequenced = record {
    account = with_bytes ctx.target (layout asset_account (with_next_seq asset) old_items);
    payer = ctx.payer;
  }

  abbrev new_size : ℕ
  new_size = length (layout asset_account (with_next_seq asset) new_items)

  -- What a successful removal has checked, and the accounts that it leaves.
  pub record IsRemoved : Type 0 where
    pub authority : AccountInfo
    pub signed : check_accounts ctx ≡ ok authority
    pub no_groups : ¬ (plugin_type plugin ≡ PluginType.groups)
    pub permitted : IsGranted remove_event (asset_request ctx authority plugin plugin_authority) (
      asset,
      some (header_of asset_account asset old_items),
      some (registry_of asset_account asset old_items),
    )
    pub removed :
        result
        ≡ with_items asset_account
            (with_next_seq asset)
            new_items
            (refunded runtime ctx.system_program new_size sequenced)

  module _ (laid_out : IsLaidOut asset_account asset ctx.target old_items)
      (coded : IsCodedMeta asset_account asset old_items) (plugin_coded : IsCodedPlugin plugin)
      (free : IsFree (plugin_type plugin) before) where
    found-stored :
        plugin_to_remove asset_account ctx.target (plugin_type plugin)
        ≡ ok (asset, plugin_authority, plugin)
    found-stored = ground (
      arith,
      fetch_core_data-laid_out asset_account asset old_items ctx.target laid_out coded,
      fetch_wrapped_plugin-given asset_account asset ctx.target before after plugin_authority plugin
          laid_out coded plugin_coded free,
    )

    -- A successful `remove_plugin`, on an asset that stores a list in which the plugin is the first of its
    -- type, where the rent of the bytes that go can be given back: the guards on the
    -- accounts have passed, the plugin is not groups, the permission checks have granted the removal of this
    -- plugin under its authority, and the asset stores the list without the plugin, with the next sequence
    -- number, and the payer has that rent.
    pub remove_plugin-IsRemoved :
        IsCodedMeta asset_account (with_next_seq asset) old_items
        → IsCodedMeta asset_account (with_next_seq asset) new_items
        → length (
            host.encode_record (
              internal_record
                (end_of (area_offset asset_account (with_next_seq asset)) before)
                plugin_authority
                plugin))
          ≡ record_len (
              internal_record
                (end_of (area_offset asset_account (with_next_seq asset)) before)
                plugin_authority
                plugin)
        → length (layout asset_account (with_next_seq asset) old_items) < 2 ^ 63
        → IsRefundable runtime ctx.system_program new_size sequenced
        → remove_plugin ctx (plugin_type plugin) ≡ ok result
        → IsRemoved
    unfolding remove_plugin
    remove_plugin-IsRemoved coded_next coded' record_coded bound refundable h =
        let t = plugin_type plugin in
        let (authority, signed, h1) = >>=-succeeds (check_accounts ctx) _ h in
        let (u1, uncompressed, h2) = >>=-succeeds (check_uncompressed ctx.target) _ h1 in
        let (u2, allowed, h3) =
          >>=-succeeds (guard (not (plugin_type_eq t PluginType.groups)) (custom invalid_plugin)) _
            h2 in
        let h4 = >>=-at (plugin_to_remove asset_account ctx.target t) _ found-stored h3 in
        let request = asset_request ctx authority plugin plugin_authority in
        let (u3, allowed_by_all, h5) =
          >>=-succeeds (validate_asset_permissions remove_event request >>= λ _. ok tt) _ h4 in
        let (core, valid, h6) =
          >>=-succeeds (validate_asset_permissions remove_event request) _ allowed_by_all in
        let granted = validate_asset_permissions-IsGranted remove_event request core valid in
        let fetched = ok-injective (
          sym granted.fetched
          ∙ fetch_core_data-laid_out asset_account asset old_items ctx.target laid_out coded) in
        let h7 =
          >>=-at (increment_seq_and_save asset ctx.target) _
            (increment_seq_and_save-stores asset old_items ctx.target laid_out coded.core_coded
              coded_next.core_coded)
            h5 in
        let laid_out' : IsLaidOut asset_account (with_next_seq asset) sequenced.account old_items =
          record { owned = laid_out.owned; stored = refl } in
        let deleted =
          delete_plugin-removes asset_account (with_next_seq asset) ctx.system_program sequenced
            runtime before after plugin_authority plugin laid_out' coded_next coded' plugin_coded
            record_coded free bound refundable in
        record {
          authority = authority;
          signed = signed;
          no_groups = λ e. ground (arith, allowed, ap plugin_type_index e);
          permitted = subst (IsGranted remove_event request) fetched granted;
          removed = ok-injective (sym h7 ∙ deleted);
        }
