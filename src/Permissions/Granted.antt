-- ===== src/Permissions/Granted.antt =====
-- programs/mpl-core/src/utils/mod.rs: what it takes for `validate_asset_permissions` to succeed.
use mpl_core.Prelude.{any, subst, ◌≡◌, true, false, Option, none, some, List, ◌⊎◌, inl, inr, arith}
use mpl_core.Error.{ok-injective, Result, ok, >>=-succeeds, guard, panic}
use mpl_core.State.{AssetV1, asset_v1, Authority}
use mpl_core.Registry.{PluginRegistryV1}
use mpl_core.Registry.Evaluate.{ExternalCheckMap}
use mpl_core.Host.{Host}
use mpl_core.Loading.{asset_account, CoreData, fetch_core_data}
use mpl_core.Lifecycle.{
  ValidationResult, approved, rejected, force_approved, Flags, tally, no_flags,
}
use mpl_core.Lifecycle.Outcome.{answers_with, is_failure, Outcome, tally-Outcome}
use mpl_core.Permissions.Resolve.{resolve_pubkey_to_authorities}
use mpl_core.Permissions.Asset.{
  AssetEvent, AssetRequest, asset_inputs, asset_checks, asset_answers, is_well_formed,
  check_collection, collection_registry, collection_external_checks, add_external_checks,
  decide_asset, validate_asset_permissions,
}

-- The answers let the event through: one is forced, or all came, one approves and none rejects.
abbrev pub LetThrough : List (Result ValidationResult) → Type 0
LetThrough answers =
    (answers_with force_approved answers ≡ true)
    ⊎ ((any is_failure answers ≡ false)
        × (answers_with approved answers ≡ true)
        × (answers_with rejected answers ≡ false))

module _ ⦃host : Host⦄ where
  -- What a granted request went through.
  pub record IsGranted (event : AssetEvent) (request : AssetRequest) (core : CoreData AssetV1)
      : Type 0 where
    pub resolved : List Authority
    pub of_collection : Option PluginRegistryV1
    pub external : ExternalCheckMap
    pub fetched : fetch_core_data asset_account request.asset ≡ ok core
    pub resolves :
        resolve_pubkey_to_authorities request.authority_info request.collection core.0 ≡ ok resolved
    pub in_collection : check_collection core.0.update_authority request.collection ≡ ok tt
    pub collection_read : collection_registry request.collection ≡ ok of_collection
    pub from_collection : ExternalCheckMap
    pub collection_external_read :
        collection_external_checks event.hookable_lifecycle_event request.collection of_collection
        ≡ ok from_collection
    pub external_read :
        add_external_checks event.hookable_lifecycle_event asset_v1 request.asset core.2
          from_collection
        ≡ ok external
    pub let_through : LetThrough (
        asset_answers event request core.0
          (asset_inputs request resolved)
          (asset_checks event.plugin_check_fp of_collection core.2)
          external)

  decide_asset-LetThrough :
      (answers : List (Result ValidationResult)) (flags : Option Flags)
      → Outcome answers no_flags flags
      → decide_asset flags ≡ ok tt
      → LetThrough answers
  decide_asset-LetThrough answers none forced h = inl forced
  decide_asset-LetThrough answers (some flags) outcome h =
      inr (ground arith, ground arith, ground arith)

  -- A successful `validate_asset_permissions` returns the core data of the asset's account, has resolved
  -- the signer's authorities, has found that the collection passed in is the asset's own, has read the
  -- collection's registry, and has got
  -- answers of which one is forced, or which all came, one approving and none rejecting.
  pub validate_asset_permissions-IsGranted :
      (event : AssetEvent) (request : AssetRequest) (core : CoreData AssetV1)
      → validate_asset_permissions event request ≡ ok core
      → IsGranted event request core
  unfolding validate_asset_permissions
  validate_asset_permissions-IsGranted event request core h =
      let (_, _, h1) =
        >>=-succeeds
          (guard (is_well_formed event.external_validate_fp event.hookable_lifecycle_event) panic) _
          h in
      let (found, fetched, h2) = >>=-succeeds (fetch_core_data asset_account request.asset) _ h1 in
      let (resolved, resolves, h3) =
        >>=-succeeds
          (resolve_pubkey_to_authorities request.authority_info request.collection found.0) _ h2 in
      let (_, in_collection, h4) =
        >>=-succeeds (check_collection found.0.update_authority request.collection) _ h3 in
      let (of_collection, collection_read, h5) =
        >>=-succeeds (collection_registry request.collection) _ h4 in
      let (from_collection, collection_external_read, h6) =
        >>=-succeeds
          (collection_external_checks event.hookable_lifecycle_event request.collection
            of_collection)
          _ h5 in
      let (external, external_read, h7) =
        >>=-succeeds
          (add_external_checks event.hookable_lifecycle_event asset_v1 request.asset found.2
            from_collection)
          _ h6 in
      let answers =
        asset_answers event request found.0 (asset_inputs request resolved)
          (asset_checks event.plugin_check_fp of_collection found.2) external in
      let (flags, tallied, h8) = >>=-succeeds (tally answers no_flags) _ h7 in
      let (_, decided, h9) = >>=-succeeds (decide_asset flags) _ h8 in
      subst (IsGranted event request) (ok-injective h9) (record {
        resolved = resolved;
        of_collection = of_collection;
        external = external;
        fetched = fetched;
        resolves = resolves;
        in_collection = in_collection;
        collection_read = collection_read;
        from_collection = from_collection;
        collection_external_read = collection_external_read;
        external_read = external_read;
        let_through =
            decide_asset-LetThrough answers flags (tally-Outcome answers no_flags flags tallied)
              decided;
      })
