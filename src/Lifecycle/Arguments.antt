-- ===== src/Lifecycle/Arguments.antt =====
-- The arguments that programs/mpl-core/src/plugins/lifecycle.rs hands from the instruction to each
-- plugin, and the context that it builds of them.
use mpl_core.Prelude.{Option, some, List}
use mpl_core.State.{Pubkey, Key, Authority, UpdateAuthority, AccountInfo}
use mpl_core.Plugins.{Plugin}
use mpl_core.External.{ExternalPluginAdapter}
use mpl_core.Lifecycle.Types.{PluginValidationContext}

-- The parameters that `validate_plugin_checks` and `validate_external_plugin_adapter_checks` share.
pub record Inputs : Type 0 where
  pub accounts : List AccountInfo
  pub authority : AccountInfo
  pub new_owner : Option AccountInfo
  pub new_asset_authority : Option UpdateAuthority
  pub new_collection_authority : Option Pubkey
  pub new_plugin : Option Plugin
  pub new_plugin_authority : Option Authority
  pub new_external_plugin : Option ExternalPluginAdapter
  pub new_external_plugin_authority : Option Authority
  pub asset : Option AccountInfo
  pub collection : Option AccountInfo
  pub resolved_authorities : List Authority

-- `let validation_ctx = PluginValidationContext { .. }`
abbrev pub context : Inputs → Key → Authority → PluginValidationContext
context inputs self_key self_authority = record {
  accounts = inputs.accounts;
  asset_info = inputs.asset;
  collection_info = inputs.collection;
  self_key = self_key;
  self_authority = self_authority;
  authority_info = inputs.authority;
  resolved_authorities = some inputs.resolved_authorities;
  new_owner = inputs.new_owner;
  new_asset_authority = inputs.new_asset_authority;
  new_collection_authority = inputs.new_collection_authority;
  target_plugin = inputs.new_plugin;
  target_plugin_authority = inputs.new_plugin_authority;
  target_external_plugin = inputs.new_external_plugin;
  target_external_plugin_authority = inputs.new_external_plugin_authority;
}
