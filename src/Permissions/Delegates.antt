-- ===== src/Permissions/Delegates.antt =====
-- programs/mpl-core/src/utils/mod.rs: `is_valid_collection_authority` and `is_valid_asset_authority`.
use mpl_core.Prelude.{Bool, true, false, none, some, List, find, contains, ◌==◌, if◌then◌else◌}
use mpl_core.Error.{
  Result, ok, err, fail, custom, invalid_plugin, plugin_not_found, plugins_not_initialized, ◌>>=◌,
}
use mpl_core.State.{Authority, Pubkey, UpdateAuthority, AccountInfo}
use mpl_core.Plugins.{Plugin, PluginType}
use mpl_core.Host.{Host}
use mpl_core.Loading.{load, asset_account, collection_account, fetch_wrapped_plugin}

-- The last match of both: the additional delegates of the plugin that was fetched; a plugin that is
-- missing makes no delegates, and any other error is passed on.
abbrev pub delegates_contain : Pubkey → Result (Authority × Plugin) → Result Bool
delegates_contain key (ok (_, Plugin.update_delegate p)) = ok (contains p.additional_delegates key)
delegates_contain key (ok _) = fail invalid_plugin
delegates_contain key (err (custom plugin_not_found)) = ok false
delegates_contain key (err (custom plugins_not_initialized)) = ok false
delegates_contain key (err e) = err e

module _ ⦃host : Host⦄ where
  -- `is_valid_collection_authority`
  unfoldable pub is_valid_collection_authority : AccountInfo → AccountInfo → Result Bool
  is_valid_collection_authority collection authority = do
    core ← load collection_account collection 0
    if authority.key == core.update_authority
        then ok true
        else delegates_contain authority.key (
            fetch_wrapped_plugin collection_account collection (some core)
              PluginType.update_delegate)

  -- The first match of `is_valid_asset_authority`.
  abbrev is_update_authority : UpdateAuthority → AccountInfo → List AccountInfo → Result Bool
  is_update_authority UpdateAuthority.none authority accounts = ok false
  is_update_authority (UpdateAuthority.address a) authority accounts = ok (a == authority.key)
  is_update_authority (UpdateAuthority.collection a) authority accounts =
      elim (find (λ info. info.key == a) accounts) [
        | none ↦ ok false
        | some info ↦ is_valid_collection_authority info authority
      ]

  -- `is_valid_asset_authority`
  unfoldable pub is_valid_asset_authority :
      AccountInfo → AccountInfo → List AccountInfo → Result Bool
  is_valid_asset_authority asset authority accounts = do
    core ← load asset_account asset 0
    valid ← is_update_authority core.update_authority authority accounts
    if valid
        then ok true
        else delegates_contain authority.key
            (fetch_wrapped_plugin asset_account asset (some core) PluginType.update_delegate)
