-- ===== src/Tests/Plugins.antt =====
-- The plugins' own validations, the registry, the signer's authorities and the counters.
use mpl_core.Prelude.{inr, false, ◌≡◌, ◌≢◌, refl, true, none, some, [], ◌∷◌, arith}
use mpl_core.Prelude.BTreeMap.{get}
use mpl_core.Error.{ok, err, panic}
use mpl_core.State.{
  AssetV1, UpdateAuthority, Authority, CollectionV1, asset_v1, collection_len, increment_size,
  decrement_size,
}
use mpl_core.State.Collection.{decrement-increment_size}
use mpl_core.Plugins.{
  Plugin, PluginType, plugin_type_cmp, VerifiedCreators, Autograph, Royalties, RuleSet,
}
use mpl_core.Registry.Evaluate.{CheckMap, check_registry}
use mpl_core.Registry.Lookup.{check_registry-get}
use mpl_core.Lifecycle.{
  rejected, pass, force_approved, Inputs, context, can_reject, check_transfer, check_add_plugin,
  is_resolved, PluginValidationContext,
}
use mpl_core.Loading.{load, load_key, load_plugin}
use mpl_core.Lifecycle.Validate.{ask, validate_plugin_checks}
use mpl_core.Lifecycle.Strongest.{validate_plugin_checks-strongest}
use mpl_core.Internal.Dispatch.{
  inner, validate_transfer, validate_burn, validate_execute, validate_add_plugin,
}
use mpl_core.Internal.OwnerManaged.FreezeDelegate as FreezeDelegate
use mpl_core.Internal.Permanent.Delegates as PermanentDelegates
use mpl_core.Internal.Forced.{
  validate_transfer_forced, validate_burn_forced, validate_execute_forced,
}
use mpl_core.Internal.Permanence.{validate_add_plugin-permanent}
use mpl_core.Internal.AuthorityManaged.VerifiedCreators.{
  validate_as_creator, validate_as_plugin_authority,
}
use mpl_core.Internal.AuthorityManaged.Verification.{
  validate_as_creator_iff, validate_as_plugin_authority_iff,
}
use mpl_core.Internal.OwnerManaged.Autograph.{validate_autograph}
use mpl_core.Internal.OwnerManaged.Signatures.{validate_autograph_iff}
use mpl_core.Internal.AuthorityManaged.Shares.{validate_royalties_iff}
use mpl_core.Internal.AuthorityManaged.Royalties.{validate_royalties}
use mpl_core.Permissions.Resolved.{StandsFor, resolve_pubkey_to_authorities-StandsFor}
use mpl_core.Permissions.Resolve.{resolve_pubkey_to_authorities}
use mpl_core.Permissions.Unplugged.{is_valid_collection_authority-panics}
use mpl_core.Permissions.Delegates.{is_valid_collection_authority}
use mpl_core.Tests.Accounts.{
  test_host, asset, collection, signer, bare_collection, frozen_asset, frozen_record, registry,
}

is_valid_collection_authority-panics_example :
    is_valid_collection_authority bare_collection (signer 9) ≡ err panic
unfolding load load_key collection_len
is_valid_collection_authority-panics_example =
    is_valid_collection_authority-panics bare_collection (signer 9) collection refl refl refl

-- The arguments of a transfer of the frozen asset that 9 signs.
abbrev inputs : Inputs
inputs = record {
  accounts = [];
  authority = signer 9;
  new_owner = some (signer 10);
  new_asset_authority = none;
  new_collection_authority = none;
  new_plugin = some Plugin.permanent_transfer_delegate;
  new_plugin_authority = none;
  new_external_plugin = none;
  new_external_plugin_authority = none;
  asset = some frozen_asset;
  collection = none;
  resolved_authorities = Authority.address 9 ∷ [];
}

abbrev delegate_context : PluginValidationContext
delegate_context = context inputs asset_v1 (Authority.address 9)

abbrev checks : CheckMap
checks =
    (PluginType.freeze_delegate, (asset_v1, can_reject, frozen_record))
    ∷ (
      PluginType.permanent_transfer_delegate,
      (asset_v1, can_reject, record frozen_record { authority = Authority.address 9; offset = 48 }),
    )
    ∷ []

-- A rejection first, a forced approval second.
validate_plugin_checks-strongest_example :
    validate_plugin_checks inputs validate_transfer checks ≡ ok force_approved
unfolding ask load_plugin validate_transfer inner FreezeDelegate.validation
    PermanentDelegates.transfer_delegate_validation
validate_plugin_checks-strongest_example =
    validate_plugin_checks-strongest inputs validate_transfer checks
      (rejected ∷ force_approved ∷ []) refl

validate_transfer_forced_example :
    (Plugin.permanent_transfer_delegate ≡ Plugin.permanent_transfer_delegate)
    × (is_resolved delegate_context ≡ true)
unfolding validate_transfer inner PermanentDelegates.transfer_delegate_validation
validate_transfer_forced_example =
    validate_transfer_forced Plugin.permanent_transfer_delegate delegate_context refl

validate_burn_forced_example :
    (Plugin.permanent_burn_delegate ≡ Plugin.permanent_burn_delegate)
    × (is_resolved delegate_context ≡ true)
unfolding validate_burn inner PermanentDelegates.burn_delegate_validation
validate_burn_forced_example =
    validate_burn_forced Plugin.permanent_burn_delegate delegate_context refl

validate_execute_forced_example :
    validate_execute Plugin.permanent_transfer_delegate delegate_context ≢ ok force_approved
validate_execute_forced_example =
    validate_execute_forced Plugin.permanent_transfer_delegate delegate_context

validate_add_plugin-permanent_example :
    (check_add_plugin PluginType.permanent_transfer_delegate ≡ can_reject)
    × (validate_add_plugin Plugin.permanent_transfer_delegate delegate_context ≡ ok rejected)
validate_add_plugin-permanent_example =
    validate_add_plugin-permanent Plugin.permanent_transfer_delegate delegate_context refl refl

check_registry-get_example :
    get plugin_type_cmp PluginType.freeze_delegate
      (check_registry registry.registry asset_v1 check_transfer [])
    ≡ some (asset_v1, can_reject, frozen_record)
unfolding check_transfer
check_registry-get_example =
    check_registry-get PluginType.freeze_delegate registry.registry asset_v1 check_transfer []

-- The asset in the collection of which 8 is the update authority.
abbrev collected : AssetV1
collected = record asset { update_authority = UpdateAuthority.collection 31 }

resolve_pubkey_to_authorities-StandsFor_example :
    StandsFor
      (signer 8)
      (some bare_collection)
      collected
      (Authority.update_authority ∷ Authority.address 8 ∷ [])
unfolding resolve_pubkey_to_authorities load load_key
resolve_pubkey_to_authorities-StandsFor_example =
    resolve_pubkey_to_authorities-StandsFor (signer 8) (some bare_collection) collected
      (Authority.update_authority ∷ Authority.address 8 ∷ []) refl

-- Two creators who share everything.
abbrev royalties : Royalties
royalties = record {
  basis_points = 500;
  creators = record { address = 1; percentage = 40 } ∷ record { address = 2; percentage = 60 } ∷ [];
  rule_set = RuleSet.none;
}

validate_royalties_iff_example : validate_royalties royalties ≡ ok pass
validate_royalties_iff_example =
    (validate_royalties_iff royalties).1 (omega arith, refl, (refl, (refl, tt)))

abbrev unverified : VerifiedCreators
unverified = record {
  signatures =
      record { address = 1; verified = false } ∷ record { address = 2; verified = true } ∷ [];
}

abbrev verified : VerifiedCreators
verified = record {
  signatures =
      record { address = 1; verified = true } ∷ record { address = 2; verified = true } ∷ [];
}

-- The creator verifies himself.
validate_as_creator_iff_example : validate_as_creator verified unverified 1 ≡ ok pass
validate_as_creator_iff_example =
    (validate_as_creator_iff verified unverified 1 (omega arith)).1
      ((refl, (refl, tt)), (refl, (refl, tt)), (refl, (refl, tt)), (refl, (refl, tt)))

-- The plugin's authority removes a creator who is not verified.
validate_as_plugin_authority_iff_example :
    validate_as_plugin_authority
      (record { signatures = record { address = 2; verified = true } ∷ [] })
      (some unverified)
      9
    ≡ ok pass
validate_as_plugin_authority_iff_example =
    (validate_as_plugin_authority_iff
        (record { signatures = record { address = 2; verified = true } ∷ [] }) (some unverified) 9
        (omega arith) (omega arith)).1
      ((refl, tt), (refl, (refl, tt)), (refl, tt), (refl, tt))

abbrev signed : Autograph
signed = record { signatures = record { address = 1; message = 72 ∷ [] } ∷ [] }

abbrev signed_by_both : Autograph
signed_by_both = record {
  signatures =
      record { address = 1; message = 72 ∷ [] } ∷ record { address = 2; message = 73 ∷ [] } ∷ [];
}

-- 2 adds an autograph.
validate_autograph_iff_example : validate_autograph signed_by_both (some signed) 2 false ≡ ok pass
validate_autograph_iff_example =
    (validate_autograph_iff signed_by_both (some signed) 2 false).1
      ((refl, (refl, tt)), (refl, (refl, tt)), inr (refl, tt))

decrement-increment_size_example :
    (d : CollectionV1) × (increment_size collection ≡ ok d) × (decrement_size d ≡ ok collection)
decrement-increment_size_example = decrement-increment_size collection (omega arith)
