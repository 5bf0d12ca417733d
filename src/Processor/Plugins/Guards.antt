-- ===== src/Processor/Plugins/Guards.antt =====
-- programs/mpl-core/src/processor/{add_plugin,remove_plugin,approve_plugin_authority}.rs: the accounts of
-- the instructions, and the guards that they begin with; `AssetV1::increment_seq_and_save`.
use mpl_core.Prelude.{ℕ, ◌+◌, ◌-◌, ◌^◌, min, not, Option, none, some, List, ◌==◌}
use mpl_core.Error.{
  Result, ok, custom, guard, invalid_system_program, invalid_log_wrapper_program, not_available,
  ◌>>=◌, ◌>>◌,
}
use mpl_core.State.{AccountInfo, AssetV1, key_eq, hashed_asset_v1, Authority}
use mpl_core.Plugins.{Plugin}
use mpl_core.Host.{Host}
use mpl_core.Loading.{load_key, asset_account}
use mpl_core.Permissions.Resolve.{resolve_authority}
use mpl_core.Permissions.Asset.{AssetRequest}
use mpl_core.Permissions.Collection.{CollectionRequest}
use mpl_core.Storage.Accounts.{save}

-- The accounts of an instruction on a plugin: `target` is the asset, or the collection where the plugin
-- is one of a collection's; `collection` is the asset's.
pub record PluginAccounts : Type 0 where
  pub accounts : List AccountInfo
  pub target : AccountInfo
  pub collection : Option AccountInfo
  pub payer : AccountInfo
  pub authority : Option AccountInfo
  pub system_program : AccountInfo
  pub log_wrapper : Option AccountInfo

module _ ⦃host : Host⦄ where
  abbrev pub check_log_wrapper : Option AccountInfo → Result (Unit {0})
  check_log_wrapper none = ok tt
  check_log_wrapper (some log_wrapper) =
      guard (log_wrapper.key == host.spl_noop_id) (custom invalid_log_wrapper_program)

  -- The guards; the authority that acts.
  unfoldable pub check_accounts : PluginAccounts → Result AccountInfo
  check_accounts ctx = do
    host.assert_signer ctx.payer
    authority ← resolve_authority ctx.payer ctx.authority
    guard (ctx.system_program.key == host.system_program_id) (custom invalid_system_program)
    check_log_wrapper ctx.log_wrapper
    ok authority

  -- `if let Key::HashedAssetV1 = load_key(asset, 0)? { return Err(..) }`
  unfoldable pub check_uncompressed : AccountInfo → Result (Unit {0})
  check_uncompressed asset = do
    key ← load_key asset 0
    guard (not (key_eq key hashed_asset_v1)) (custom not_available)

  -- The asset with its sequence number, if it has one, one higher; it stops at the largest `u64`.
  abbrev pub with_next_seq : AssetV1 → AssetV1
  with_next_seq asset = elim asset.seq [
    | none ↦ asset
    | some seq ↦ record asset { seq = some (min (seq + 1) (2 ^ 64 - 1)) }
  ]

  abbrev pub save_next_seq : Option ℕ → AssetV1 → AccountInfo → Result AccountInfo
  save_next_seq none asset account = ok account
  save_next_seq (some seq) asset account = save asset_account (with_next_seq asset) 0 account

  -- `AssetV1::increment_seq_and_save`: the account; the asset is `with_next_seq` of it.
  unfoldable pub increment_seq_and_save : AssetV1 → AccountInfo → Result AccountInfo
  increment_seq_and_save asset = save_next_seq asset.seq asset

  -- What the instructions pass to the permission checks.
  abbrev pub asset_request : PluginAccounts → AccountInfo → Plugin → Authority → AssetRequest
  asset_request ctx authority plugin plugin_authority = record {
    accounts = ctx.accounts;
    authority_info = authority;
    asset = ctx.target;
    collection = ctx.collection;
    new_owner = none;
    new_authority = none;
    new_plugin = some plugin;
    new_plugin_authority = some plugin_authority;
    new_external_plugin_adapter = none;
    new_external_plugin_adapter_authority = none;
  }

  abbrev pub collection_request :
      PluginAccounts → AccountInfo → Plugin → Authority → CollectionRequest
  collection_request ctx authority plugin plugin_authority = record {
    accounts = ctx.accounts;
    authority_info = authority;
    collection = ctx.target;
    new_authority = none;
    new_plugin = some plugin;
    new_plugin_authority = some plugin_authority;
    new_external_plugin_adapter = none;
    new_external_plugin_adapter_authority = none;
  }
