-- ===== src/Permissions/Resolved.antt =====
-- programs/mpl-core/src/utils/mod.rs: which authorities a signer stands for, and so which plugins obey him.
use mpl_core.Prelude.{
  sym, ap, subst, ◌∙◌, ◌↔◌, refl, ◌++◌, [], ◌∷◌, ℕ, ◌≡◌, Bool, true, false, Option, none, some,
  List, arith, ◌==◌,
}
use mpl_core.Error.{guard, custom, invalid_collection, ◌>>=◌, ok-injective, ok, >>=-succeeds}
use mpl_core.Loading.{load, collection_account}
use mpl_core.State.{Pubkey, CollectionV1, UpdateAuthority, Authority, AccountInfo, AssetV1}
use mpl_core.Host.{Host}
use mpl_core.Lifecycle.{contains_authority}
use mpl_core.Permissions.Resolve.{push_if, resolves_update_authority, resolve_pubkey_to_authorities}

-- The list that `resolve_pubkey_to_authorities` builds.
abbrev list_of : Bool → Bool → ℕ → List Authority
list_of owner update_authority key =
    push_if owner Authority.owner
    ++ (push_if update_authority Authority.update_authority ++ (Authority.address key ∷ []))

list_of_lem :
    (owner update_authority : Bool) (key : ℕ)
    → (contains_authority (list_of owner update_authority key) Authority.none ≡ false)
      × (contains_authority (list_of owner update_authority key) Authority.owner ≡ owner)
      × ((a : ℕ)
          → contains_authority (list_of owner update_authority key) (Authority.address a)
            ≡ (key == a))
      × (contains_authority (list_of owner update_authority key) Authority.update_authority
          ≡ update_authority)
list_of_lem true true key = (refl, refl, λ a. ground arith, refl)
list_of_lem true false key = (refl, refl, λ a. ground arith, refl)
list_of_lem false true key = (refl, refl, λ a. ground arith, refl)
list_of_lem false false key = (refl, refl, λ a. ground arith, refl)

module _ ⦃host : Host⦄ where
  -- The account passed in is the collection `a` and stores that the signer is its update authority.
  pub record UpdatesCollection (signer : AccountInfo) (passed : Option AccountInfo) (a : Pubkey)
      : Type 0 where
    pub account : AccountInfo
    pub core : CollectionV1
    pub was_passed : passed ≡ some account
    pub is_named : account.key ≡ a
    pub is_stored : load collection_account account 0 ≡ ok core
    pub updates : signer.key ≡ core.update_authority

  -- The signer may update an asset with an update authority: it is that address, or that of the collection.
  abbrev pub Updates : AccountInfo → Option AccountInfo → UpdateAuthority → Type 0
  Updates signer collection UpdateAuthority.none = ⊥
  Updates signer collection (UpdateAuthority.address a) = signer.key ≡ a
  Updates signer collection (UpdateAuthority.collection a) = UpdatesCollection signer collection a

  -- What a list of resolved authorities says of the signer.
  abbrev pub StandsFor : AccountInfo → Option AccountInfo → AssetV1 → List Authority → Type 0
  StandsFor signer collection asset resolved =
      (contains_authority resolved Authority.none ≡ false)
      × ((contains_authority resolved Authority.owner ≡ true) ↔ (signer.key ≡ asset.owner))
      × ((a : ℕ) → (contains_authority resolved (Authority.address a) ≡ true) ↔ (signer.key ≡ a))
      × ((contains_authority resolved Authority.update_authority ≡ true)
          ↔ Updates signer collection asset.update_authority)

  test_iff : {b : Bool} {a c : ℕ} → b ≡ (a == c) → (b ≡ true) ↔ (a ≡ c)
  test_iff p = ground arith

  option_same : {x y : AccountInfo} → some x ≡ some y → x ≡ y
  option_same e = cc

  one_core :
      (x y : AccountInfo) (c d : CollectionV1) (b : Bool) (signer : AccountInfo)
      → x ≡ y
      → load collection_account x 0 ≡ ok c
      → load collection_account y 0 ≡ ok d
      → b ≡ (signer.key == c.update_authority)
      → signer.key ≡ d.update_authority
      → b ≡ true
  one_core x y c d b signer same loaded_x loaded_y answer updates =
      let loaded : ok c ≡ ok d =
        sym loaded_x ∙ ap (λ z. load collection_account z 0) same ∙ loaded_y in
      let core : c.update_authority ≡ d.update_authority =
        ap (λ z. z.update_authority) (ok-injective loaded) in
      ground (arith, core, answer, updates)

  -- By the asset's update authority.
  resolves-Updates :
      (u : UpdateAuthority) (signer : AccountInfo) (collection : Option AccountInfo)
      (asset : AssetV1) (b : Bool)
      → asset.update_authority ≡ u
      → resolves_update_authority signer collection asset ≡ ok b
      → (b ≡ true) ↔ Updates signer collection u
  resolves-Updates UpdateAuthority.none signer collection asset b same h = ground (arith, same, h)
  resolves-Updates (UpdateAuthority.address a) signer collection asset b same h =
      ground (arith, same, h)
  resolves-Updates (UpdateAuthority.collection a) signer none asset b same h =
      ground (arith, same, h)
  resolves-Updates (UpdateAuthority.collection a) signer (some info) asset b same h =
      let h0 : (guard (info.key == a) (custom invalid_collection) >>= λ _.
      load collection_account info 0 >>= λ core. ok (signer.key == core.update_authority))
          ≡ ok b =
        ground (arith, same, h) in
      let (u1, named, h1) = >>=-succeeds (guard (info.key == a) (custom invalid_collection)) _ h0 in
      let (stored, loaded, h2) = >>=-succeeds (load collection_account info 0) _ h1 in
      (
        λ yes_it_is. record {
          account = info;
          core = stored;
          was_passed = refl;
          is_named = ground (arith, named);
          is_stored = loaded;
          updates = ground (arith, ok-injective h2, yes_it_is);
        },
        λ r.
            one_core info r.account stored r.core b signer (option_same r.was_passed) loaded
              r.is_stored (sym (ok-injective h2)) r.updates,
      )

  -- The authorities that a signer is resolved to for an asset never contain `None`; they contain `Owner`
  -- exactly for the asset's owner, an address exactly for the signer of that address, and
  -- `UpdateAuthority` exactly where the asset's update authority is the signer's address, or is a
  -- collection that was passed in and stores the signer's address as its update authority.
  pub resolve_pubkey_to_authorities-StandsFor :
      (signer : AccountInfo) (collection : Option AccountInfo) (asset : AssetV1)
      (resolved : List Authority)
      → resolve_pubkey_to_authorities signer collection asset ≡ ok resolved
      → StandsFor signer collection asset resolved
  unfolding resolve_pubkey_to_authorities
  resolve_pubkey_to_authorities-StandsFor signer collection asset resolved h =
      let (is_update_authority, e, h1) =
        >>=-succeeds (resolves_update_authority signer collection asset) _ h in
      let (of_none, of_owner, of_address, of_update_authority) =
        list_of_lem (signer.key == asset.owner) is_update_authority signer.key in
      let updates =
        resolves-Updates asset.update_authority signer collection asset is_update_authority refl
          e in
      subst (StandsFor signer collection asset) (ok-injective h1) (
        of_none,
        test_iff of_owner,
        λ a. test_iff (of_address a),
        ((λ p. updates.0 (sym of_update_authority ∙ p)), λ p. of_update_authority ∙ updates.1 p),
      )
