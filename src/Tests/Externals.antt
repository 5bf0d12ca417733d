-- ===== src/Tests/Externals.antt =====
-- External plugin adapters at a concrete map of checks.
use mpl_core.Prelude.{none, some, [], ◌∷◌, refl}
use mpl_core.State.{Authority, asset_v1}
use mpl_core.External.{ExternalPluginAdapterKey, ExternalPluginAdapterType}
use mpl_core.Registry.Evaluate.{ExternalCheckMap}
use mpl_core.Loading.{load_external}
use mpl_core.Lifecycle.{Inputs, rejected, reject}
use mpl_core.Lifecycle.Validate.{
  ExternalFn, ask_external, external_loop, validate_external_plugin_adapter_checks,
}
use mpl_core.Lifecycle.Externals.{IsFounded, validate_external_plugin_adapter_checks-IsFounded}
use mpl_core.Tests.Accounts.{test_host, frozen_asset, signer}

abbrev inputs : Inputs
inputs = record {
  accounts = [];
  authority = signer 7;
  new_owner = some (signer 10);
  new_asset_authority = none;
  new_collection_authority = none;
  new_plugin = none;
  new_plugin_authority = none;
  new_external_plugin = none;
  new_external_plugin_authority = none;
  asset = some frozen_asset;
  collection = none;
  resolved_authorities = Authority.owner ∷ [];
}

-- An adapter that may reject, and one that may not.
abbrev checks : ExternalCheckMap
checks =
    (
      ExternalPluginAdapterKey.oracle 5,
      (
        asset_v1,
        record { flags = 1 },
        record {
          plugin_type = ExternalPluginAdapterType.oracle;
          authority = Authority.owner;
          lifecycle_checks = none;
          offset = 47;
          data_offset = none;
          data_len = none;
        },
      ),
    )
    ∷ (
      ExternalPluginAdapterKey.oracle 6,
      (
        asset_v1,
        record { flags = 4 },
        record {
          plugin_type = ExternalPluginAdapterType.oracle;
          authority = Authority.owner;
          lifecycle_checks = none;
          offset = 48;
          data_offset = none;
          data_len = none;
        },
      ),
    )
    ∷ []

abbrev rejects : ExternalFn
rejects plugin ctx = reject

validate_external_plugin_adapter_checks-IsFounded_example : IsFounded inputs rejects checks rejected
unfolding validate_external_plugin_adapter_checks external_loop ask_external load_external
validate_external_plugin_adapter_checks-IsFounded_example =
    validate_external_plugin_adapter_checks-IsFounded inputs rejects checks rejected refl
