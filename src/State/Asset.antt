-- ===== src/State/Asset.antt =====
-- programs/mpl-core/src/state/asset.rs: the asset's data.
use mpl_core.Prelude.{ℕ, ◌+◌, Option, none, length, is_some, if◌then◌else◌}
use mpl_core.State.Addresses.{Pubkey, Text, UpdateAuthority, collection, Key, asset_v1}

-- `AssetV1`
pub record AssetV1 : Type 0 where
  pub key : Key
  pub owner : Pubkey
  pub update_authority : UpdateAuthority
  pub name : Text
  pub uri : Text
  pub seq : Option ℕ

-- `AssetV1::BASE_LEN`
abbrev pub asset_base_len : ℕ
asset_base_len = 1 + 32 + 1 + 4 + 4 + 1

-- `AssetV1::new`
unfoldable pub new_asset : Pubkey → UpdateAuthority → Text → Text → AssetV1
new_asset owner update_authority name uri = record {
  key = asset_v1;
  owner = owner;
  update_authority = update_authority;
  name = name;
  uri = uri;
  seq = none;
}

-- The 32 bytes that an address or a collection adds.
abbrev update_authority_len : UpdateAuthority → ℕ
update_authority_len UpdateAuthority.none = 0
update_authority_len (UpdateAuthority.address _) = 32
update_authority_len (collection _) = 32

-- `AssetV1::len`
unfoldable pub asset_len : AssetV1 → ℕ
asset_len asset =
    asset_base_len
    + length asset.name
    + length asset.uri
    + update_authority_len asset.update_authority
    + (if is_some asset.seq then 8 else 0)
