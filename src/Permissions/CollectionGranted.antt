-- ===== src/Permissions/CollectionGranted.antt =====
-- programs/mpl-core/src/utils/mod.rs: what it takes for `validate_collection_permissions` to succeed.
use mpl_core.Prelude.{◌≡◌, Option, none, some, List, [], ◌∷◌, inl, inr, arith, subst}
use mpl_core.Error.{Result, ok, >>=-succeeds, guard, panic, ok-injective}
use mpl_core.State.{Authority, CollectionV1, collection_v1}
use mpl_core.Registry.Evaluate.{ExternalCheckMap, check_registry}
use mpl_core.Host.{Host}
use mpl_core.Loading.{collection_account, CoreData, fetch_core_data}
use mpl_core.Lifecycle.{ValidationResult, Flags, tally, no_flags}
use mpl_core.Lifecycle.Validate.{validate_plugin_checks}
use mpl_core.Lifecycle.Outcome.{Outcome, tally-Outcome}
use mpl_core.Permissions.Resolve.{resolve_pubkey_to_authorities_collection}
use mpl_core.Permissions.Asset.{records_of, add_external_checks, ask_externals, is_well_formed}
use mpl_core.Permissions.Granted.{LetThrough}
use mpl_core.Permissions.Collection.{
  CollectionEvent, CollectionRequest, collection_inputs, ask_core, decide_collection,
  validate_collection_permissions,
}

module _ ⦃host : Host⦄ where
  -- The three answers, in the order of asking.
  abbrev pub collection_answers :
      CollectionEvent
      → CollectionRequest
      → CoreData CollectionV1
      → List Authority
      → ExternalCheckMap
      → List (Result ValidationResult)
  collection_answers event request core resolved external =
      ask_core event request core.0
      ∷ validate_plugin_checks (collection_inputs request resolved) event.plugin_validate_fp
          (check_registry (records_of core.2) collection_v1 event.plugin_check_fp [])
      ∷ ask_externals event.external_validate_fp (collection_inputs request resolved) external
      ∷ []

  pub record IsCollectionGranted (event : CollectionEvent) (request : CollectionRequest)
      (core : CoreData CollectionV1) : Type 0 where
    pub resolved : List Authority
    pub external : ExternalCheckMap
    pub fetched : fetch_core_data collection_account request.collection ≡ ok core
    pub resolves :
        resolve_pubkey_to_authorities_collection request.authority_info request.collection
        ≡ ok resolved
    pub external_read :
        add_external_checks event.hookable_lifecycle_event collection_v1 request.collection core.2
          []
        ≡ ok external
    pub let_through : LetThrough (collection_answers event request core resolved external)

  decide_collection-LetThrough :
      (answers : List (Result ValidationResult)) (flags : Option Flags)
      → Outcome answers no_flags flags
      → decide_collection flags ≡ ok tt
      → LetThrough answers
  decide_collection-LetThrough answers none forced h = inl forced
  decide_collection-LetThrough answers (some flags) outcome h =
      inr (ground arith, ground arith, ground arith)

  -- A successful `validate_collection_permissions` returns the core data of the collection's account, has
  -- resolved the signer's authorities for it and read the checks of its external adapters, and has got
  -- answers of which one is forced, or which all came, one approving and none rejecting.
  pub validate_collection_permissions-IsCollectionGranted :
      (event : CollectionEvent) (request : CollectionRequest) (core : CoreData CollectionV1)
      → validate_collection_permissions event request ≡ ok core
      → IsCollectionGranted event request core
  unfolding validate_collection_permissions
  validate_collection_permissions-IsCollectionGranted event request core h =
      let (_, _, h1) =
        >>=-succeeds
          (guard (is_well_formed event.external_validate_fp event.hookable_lifecycle_event) panic) _
          h in
      let (found, fetched, h2) =
        >>=-succeeds (fetch_core_data collection_account request.collection) _ h1 in
      let (resolved, resolves, h3) =
        >>=-succeeds
          (resolve_pubkey_to_authorities_collection request.authority_info request.collection) _
          h2 in
      let (external, external_read, h4) =
        >>=-succeeds
          (add_external_checks event.hookable_lifecycle_event collection_v1 request.collection
            found.2 [])
          _ h3 in
      let answers = collection_answers event request found resolved external in
      let (flags, tallied, h5) = >>=-succeeds (tally answers no_flags) _ h4 in
      let (_, decided, h6) = >>=-succeeds (decide_collection flags) _ h5 in
      subst (IsCollectionGranted event request) (ok-injective h6) (record {
        resolved = resolved;
        external = external;
        fetched = fetched;
        resolves = resolves;
        external_read = external_read;
        let_through =
            decide_collection-LetThrough answers flags
              (tally-Outcome answers no_flags flags tallied) decided;
      })
