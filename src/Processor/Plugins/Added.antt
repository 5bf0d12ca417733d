-- ===== src/Processor/Plugins/Added.antt =====
-- programs/mpl-core/src/processor/add_plugin.rs: what a successful addition has checked, and what it leaves.
use mpl_core.Prelude.{
  ℕ, ◌+◌, ◌^◌, ◌<◌, ◌≡◌, ap, sym, ◌∙◌, arith, not, false, List, [], ◌∷◌, length, any, Option, some,
  subst, ◌++◌, ◌||◌,
}
use mpl_core.Error.{
  ok-injective, invalid_plugin, ok, custom, guard, plugin_already_exists, ◌>>=◌, >>=-succeeds,
}
use mpl_core.State.{asset_v1, AccountInfo, Authority, AssetV1}
use mpl_core.Plugins.{plugin_type_index, Plugin, PluginType, plugin_type, plugin_type_eq}
use mpl_core.Host.{Host}
use mpl_core.Loading.{asset_account, SolanaAccount}
use mpl_core.Storage.Accounts.{Accounts, resize_or_reallocate_account}
use mpl_core.Storage.Runtime.{IsRuntime, resize_or_reallocate_account-IsResized}
use mpl_core.Storage.Plugins.{initialize_plugin}
use mpl_core.Storage.Layout.{
  header_of, registry_of, Item, internal, external, next, records, area_offset, layout, meta_of,
  IsFree, IsCodedMeta, IsCodedPlugin, IsLaidOut,
}
use mpl_core.Storage.Creating.{create_meta_idempotent-keeps}
use mpl_core.Storage.Adding.{added}
use mpl_core.Storage.Added.{initialize_plugin-appends}
use mpl_core.Processor.Plugins.Add.{
  add_event, ask_own, initial_authority, add_plugin, process_add_plugin,
}
use mpl_core.Processor.Plugins.Guards.{
  PluginAccounts, check_accounts, check_uncompressed, increment_seq_and_save, with_next_seq,
  asset_request,
}
use mpl_core.Permissions.Asset.{validate_asset_permissions}
use mpl_core.Permissions.Granted.{IsGranted, validate_asset_permissions-IsGranted}
use mpl_core.Storage.Reading.{fetch_core_data-laid_out}
use mpl_core.Processor.Plugins.Sequence.{increment_seq_and_save-stores}

module _ ⦃host : Host⦄ (t : PluginType) where
  IsFree-of :
      (at : ℕ) (xs : List Item)
      → any (λ r. plugin_type_eq r.plugin_type t) (records at xs) ≡ false
      → IsFree t xs
  IsFree-of at [] h = tt
  IsFree-of at (internal a p ∷ xs) h = ground (arith, IsFree-of (next at (internal a p)) xs)
  IsFree-of at (external e ∷ xs) h = IsFree-of (next at (external e)) xs h

module _ ⦃host : Host⦄ {T : Type 0} (trait : SolanaAccount T) (core : T) (items : List Item)
    (system_program : AccountInfo) (plugin : Plugin) (authority : Authority) (accounts : Accounts)
    (laid_out : IsLaidOut trait core accounts.account items)
    (coded : IsCodedMeta trait core items) where
  process_add_plugin-initializes :
      process_add_plugin trait system_program plugin authority accounts ≡ (
        initialize_plugin plugin authority
          (trait.len core)
          system_program
          (meta_of trait core items accounts)
        >>= λ stored. ok stored.accounts)
  unfolding process_add_plugin
  process_add_plugin-initializes =
      ap
        (λ created. created >>= λ c.
          initialize_plugin plugin authority c.1 system_program c.2 >>= λ stored.
          ok stored.accounts)
        (create_meta_idempotent-keeps trait core system_program accounts items laid_out coded)

  -- A plugin is only added where none of its type is there.
  process_add_plugin-IsFree :
      (result : Accounts)
      → process_add_plugin trait system_program plugin authority accounts ≡ ok result
      → IsFree (plugin_type plugin) items
  unfolding initialize_plugin
  process_add_plugin-IsFree result h =
      let (stored, h1, h2) =
        >>=-succeeds
          (initialize_plugin plugin authority (trait.len core) system_program
            (meta_of trait core items accounts))
          _ (sym process_add_plugin-initializes ∙ h) in
      let (unit, h3, h4) =
        >>=-succeeds
          (guard
            (not (
              any (λ r. plugin_type_eq r.plugin_type (plugin_type plugin))
                (records (area_offset trait core) items)))
            (custom plugin_already_exists))
          _ h1 in
      IsFree-of (plugin_type plugin) (area_offset trait core) items (ground (arith, h3))

  process_add_plugin-stores :
      IsRuntime host
      → IsCodedMeta trait core (added trait core items authority plugin)
      → IsCodedPlugin plugin
      → length (layout trait core (added trait core items authority plugin)) < 2 ^ 64
      → (result : Accounts)
      → process_add_plugin trait system_program plugin authority accounts ≡ ok result
      → (result.account.bytes ≡ layout trait core (added trait core items authority plugin))
        × (result.account.lamports + result.payer.lamports
            ≡ accounts.account.lamports + accounts.payer.lamports)
  process_add_plugin-stores runtime coded' plugin_coded bound result h =
      let new_items = added trait core items authority plugin in
      let size = length (layout trait core new_items) in
      let appended =
        initialize_plugin-appends runtime trait core items authority plugin system_program accounts
          laid_out coded coded' plugin_coded (process_add_plugin-IsFree result h) bound in
      let (stored, h1, h2) =
        >>=-succeeds
          (initialize_plugin plugin authority (trait.len core) system_program
            (meta_of trait core items accounts))
          _ (sym process_add_plugin-initializes ∙ h) in
      let (resized, h3, h4) =
        >>=-succeeds (resize_or_reallocate_account system_program size accounts) _
          (sym appended ∙ h1) in
      let is_resized =
        resize_or_reallocate_account-IsResized runtime system_program size accounts resized h3 in
      ground (arith, h2, h4, is_resized)

module _ ⦃host : Host⦄ (ctx : PluginAccounts) (plugin : Plugin) (init_authority : Option Authority)
    (asset : AssetV1) (items : List Item) (result : Accounts) where
  abbrev with_plugin : List Item
  with_plugin = items ++ (internal (initial_authority init_authority plugin) plugin ∷ [])

  -- What a successful addition has checked, and the account that it leaves.
  pub record IsAdded : Type 0 where
    pub authority : AccountInfo
    pub signed : check_accounts ctx ≡ ok authority
    pub no_edition : ¬ (plugin_type plugin ≡ PluginType.master_edition)
    pub no_groups : ¬ (plugin_type plugin ≡ PluginType.groups)
    pub permitted :
        IsGranted add_event
          (asset_request ctx authority plugin (initial_authority init_authority plugin))
          (
            asset,
            some (header_of asset_account asset items),
            some (registry_of asset_account asset items),
          )
    pub accepted :
        ask_own ctx asset_v1 authority plugin (initial_authority init_authority plugin) ≡ ok tt
    pub new_type : IsFree (plugin_type plugin) items
    pub stored : result.account.bytes ≡ layout asset_account (with_next_seq asset) with_plugin
    pub lamports_kept :
        result.account.lamports + result.payer.lamports ≡ ctx.target.lamports + ctx.payer.lamports

  -- A successful `add_plugin`, on an asset that stores a list of plugins and external adapters: the guards
  -- on the accounts have passed, the plugin is neither a master edition nor groups, the plugin has not rejected its own addition, the permission checks have granted it, no
  -- plugin of its type was there, and the asset stores the list with the plugin at its end, under the
  -- authority that was passed in or else its manager, with the next sequence number; no lamport is lost.
  pub add_plugin-IsAdded :
      IsRuntime host
      → IsLaidOut asset_account asset ctx.target items
      → IsCodedMeta asset_account asset items
      → IsCodedMeta asset_account (with_next_seq asset) items
      → IsCodedMeta asset_account (with_next_seq asset) with_plugin
      → IsCodedPlugin plugin
      → length (layout asset_account (with_next_seq asset) with_plugin) < 2 ^ 64
      → add_plugin ctx plugin init_authority ≡ ok result
      → IsAdded
  unfolding add_plugin
  add_plugin-IsAdded runtime laid_out coded coded_next coded' plugin_coded bound h =
      let plugin_authority = initial_authority init_authority plugin in
      let (authority, signed, h1) = >>=-succeeds (check_accounts ctx) _ h in
      let (u1, uncompressed, h2) = >>=-succeeds (check_uncompressed ctx.target) _ h1 in
      let (u2, allowed, h3) =
        >>=-succeeds
          (guard
            (not (
              plugin_type_eq (plugin_type plugin) PluginType.master_edition
              || plugin_type_eq (plugin_type plugin) PluginType.groups))
            (custom invalid_plugin))
          _ h2 in
      let (u3, accepted, h4) =
        >>=-succeeds (ask_own ctx asset_v1 authority plugin plugin_authority) _ h3 in
      let (core, valid, h5) =
        >>=-succeeds
          (validate_asset_permissions add_event
            (asset_request ctx authority plugin plugin_authority))
          _ h4 in
      let (account, saved, h6) = >>=-succeeds (increment_seq_and_save core.0 ctx.target) _ h5 in
      let granted =
        validate_asset_permissions-IsGranted add_event
          (asset_request ctx authority plugin plugin_authority) core valid in
      let fetched = ok-injective (
        sym granted.fetched
        ∙ fetch_core_data-laid_out asset_account asset items ctx.target laid_out coded) in
      let account_stores = ok-injective (
        sym saved
        ∙ ap (λ c. increment_seq_and_save c.0 ctx.target) fetched
        ∙ increment_seq_and_save-stores asset items ctx.target laid_out coded.core_coded
            coded_next.core_coded) in
      let laid_out' : IsLaidOut asset_account (with_next_seq asset) account items = record {
        owned = ap (λ a. a.owner) account_stores ∙ laid_out.owned;
        stored = ap (λ a. a.bytes) account_stores;
      } in
      let accounts : Accounts = record { account = account; payer = ctx.payer } in
      let stores =
        process_add_plugin-stores asset_account (with_next_seq asset) items ctx.system_program
          plugin plugin_authority accounts laid_out' coded_next runtime coded' plugin_coded bound
          result h6 in
      record {
        authority = authority;
        signed = signed;
        no_edition = λ e. ground (arith, allowed, ap plugin_type_index e);
        no_groups = λ e. ground (arith, allowed, ap plugin_type_index e);
        permitted =
            subst (IsGranted add_event (asset_request ctx authority plugin plugin_authority))
              fetched granted;
        accepted = accepted;
        new_type =
            process_add_plugin-IsFree asset_account (with_next_seq asset) items ctx.system_program
              plugin plugin_authority accounts laid_out' coded_next result h6;
        stored = stores.0;
        lamports_kept = stores.1 ∙ ap (λ a. a.lamports + ctx.payer.lamports) account_stores;
      }
