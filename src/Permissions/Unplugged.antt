-- ===== src/Permissions/Unplugged.antt =====
-- programs/mpl-core/src/utils/mod.rs: `is_valid_collection_authority` at a collection without plugins.
use mpl_core.Prelude.{◌≡◌, ℕ, false, List, [], ◌∷◌, some, length, get_elem?, none, ◌==◌, refl}
use mpl_core.Error.{ok, err, panic}
use mpl_core.State.{AccountInfo, CollectionV1, data_len, collection_len}
use mpl_core.Plugins.{PluginType}
use mpl_core.Host.{Host}
use mpl_core.Loading.{
  load, load_key, SolanaAccount, header_account, collection_account, fetch_wrapped_plugin,
}
use mpl_core.Permissions.Delegates.{is_valid_collection_authority}

get_elem?-length : (xs : List ℕ) → get_elem? xs (length xs) ≡ none
get_elem?-length [] = refl
get_elem?-length (x ∷ xs) = get_elem?-length xs

module _ ⦃host : Host⦄ where
  -- The byte behind the last one is not there.
  load-past_end :
      {T : Type 0} (trait : SolanaAccount T) (account : AccountInfo) (offset : ℕ)
      → offset ≡ data_len account
      → load trait account offset ≡ err panic
  unfolding load load_key
  load-past_end trait account offset h = rw (h, get_elem?-length account.bytes)

  fetch_wrapped_plugin-panics :
      {T : Type 0} (trait : SolanaAccount T) (account : AccountInfo) (core : T) (t : PluginType)
      → trait.len core ≡ data_len account
      → fetch_wrapped_plugin trait account (some core) t ≡ err panic
  unfolding fetch_wrapped_plugin
  fetch_wrapped_plugin-panics trait account core t h =
      rw (load-past_end header_account account (trait.len core) h)

  -- Of a collection whose account ends with its core data, which is how a collection without plugins is
  -- stored, `is_valid_collection_authority` panics for every signer but the update authority, where it
  -- would answer `false` for a plugin that is missing.
  pub is_valid_collection_authority-panics :
      (collection authority : AccountInfo) (core : CollectionV1)
      → load collection_account collection 0 ≡ ok core
      → collection_len core ≡ data_len collection
      → (authority.key == core.update_authority) ≡ false
      → is_valid_collection_authority collection authority ≡ err panic
  unfolding is_valid_collection_authority
  is_valid_collection_authority-panics collection authority core loaded exact other = rw (
    loaded,
    other,
    fetch_wrapped_plugin-panics collection_account collection core PluginType.update_delegate exact,
  )
