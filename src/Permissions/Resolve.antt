-- ===== src/Permissions/Resolve.antt =====
-- programs/mpl-core/src/utils/mod.rs: which authorities the signer stands for.
use mpl_core.Prelude.{Bool, false, Option, none, some, List, [], ◌∷◌, ◌++◌, ◌==◌, if◌then◌else◌}
use mpl_core.Error.{
  Result, ok, fail, custom, guard, ok_or, invalid_authority, invalid_collection, missing_collection,
  ◌>>=◌, ◌>>◌,
}
use mpl_core.State.{
  Authority, UpdateAuthority, update_authority_key, AccountInfo, AssetV1, CollectionV1,
}
use mpl_core.Host.{Host}
use mpl_core.Loading.{load, collection_account}

-- `if b { authorities.push(a) }`
abbrev pub push_if : Bool → Authority → List Authority
push_if b a = if b then a ∷ [] else []

-- `assert_authority`, of the owner and the update authority's address of an asset.
unfoldable pub assert_authority : AssetV1 → AccountInfo → Authority → Result (Unit {0})
assert_authority asset authority Authority.none = fail invalid_authority
assert_authority asset authority Authority.owner =
    guard (asset.owner == authority.key) (custom invalid_authority)
assert_authority asset authority Authority.update_authority =
    guard (update_authority_key asset.update_authority == authority.key) (custom invalid_authority)
assert_authority asset authority (Authority.address a) =
    guard (authority.key == a) (custom invalid_authority)

-- `assert_collection_authority`
unfoldable pub assert_collection_authority :
    CollectionV1 → AccountInfo → Authority → Result (Unit {0})
assert_collection_authority collection authority Authority.none = fail invalid_authority
assert_collection_authority collection authority Authority.owner = fail invalid_authority
assert_collection_authority collection authority Authority.update_authority =
    guard (collection.update_authority == authority.key) (custom invalid_authority)
assert_collection_authority collection authority (Authority.address a) =
    guard (authority.key == a) (custom invalid_authority)

module _ ⦃host : Host⦄ where
  -- Whether the signer is the update authority: of the asset, or of the collection it is in.
  abbrev pub resolves_update_authority : AccountInfo → Option AccountInfo → AssetV1 → Result Bool
  resolves_update_authority authority collection asset = elim asset.update_authority [
    | UpdateAuthority.none ↦ ok false
    | UpdateAuthority.address a ↦ ok (a == authority.key)
    | UpdateAuthority.collection a ↦ do
      info ← ok_or collection (custom missing_collection)
      guard (info.key == a) (custom invalid_collection)
      core ← load collection_account info 0
      ok (authority.key == core.update_authority)
  ]

  -- `resolve_pubkey_to_authorities`
  unfoldable pub resolve_pubkey_to_authorities :
      AccountInfo → Option AccountInfo → AssetV1 → Result (List Authority)
  resolve_pubkey_to_authorities authority collection asset = do
    is_update_authority ← resolves_update_authority authority collection asset
    ok (
        push_if (authority.key == asset.owner) Authority.owner
        ++ (push_if is_update_authority Authority.update_authority
            ++ (Authority.address authority.key ∷ [])))

  -- `resolve_pubkey_to_authorities_collection`; the owner of a collection is its update authority.
  unfoldable pub resolve_pubkey_to_authorities_collection :
      AccountInfo → AccountInfo → Result (List Authority)
  resolve_pubkey_to_authorities_collection authority collection = do
    core ← load collection_account collection 0
    ok (
        push_if (authority.key == core.update_authority) Authority.owner
        ++ (push_if (authority.key == core.update_authority) Authority.update_authority
            ++ (Authority.address authority.key ∷ [])))

  -- `resolve_authority`
  unfoldable pub resolve_authority : AccountInfo → Option AccountInfo → Result AccountInfo
  resolve_authority payer none = ok payer
  resolve_authority payer (some authority) = do host.assert_signer authority; ok authority
