-- ===== src/Internal/AuthorityManaged/UpdateDelegate.antt =====
-- programs/mpl-core/src/plugins/internal/authority_managed/update_delegate.rs.
use mpl_core.Prelude.{
  Bool, true, false, Option, none, some, ◌&&◌, ◌||◌, not, if◌then◌else◌, contains, [], ◌∷◌,
}
use mpl_core.Prelude.BTreeSet.{to_set, difference, list_eq}
use mpl_core.Error.{Result, ok, err, fail, ok_or, custom, panic, invalid_plugin, ◌>>=◌}
use mpl_core.State.{Pubkey, Authority, authority_eq, update_authority_eq, UpdateAuthority}
use mpl_core.Plugins.{Plugin, PluginType, plugin_type, plugin_type_eq, UpdateDelegate}
use mpl_core.Host.{Host}
use mpl_core.Loading.{fetch_wrapped_plugin, asset_account}
use mpl_core.Lifecycle.{
  PluginValidationContext, PluginValidation, default_validation, ValidationResult, approve, reject,
  abstain, is_resolved,
}
use mpl_core.Lifecycle.{plugin_manager}

-- `result.is_ok()`; a panic is no result and goes on up.
abbrev is_ok : {A : Type 0} → Result A → Result Bool
is_ok (ok _) = ok true
is_ok (err panic) = err panic
is_ok (err _) = ok false

-- The signer is the plugin's authority or one of the additional delegates.
abbrev pub is_delegate : UpdateDelegate → PluginValidationContext → Bool
is_delegate self ctx = is_resolved ctx || contains self.additional_delegates ctx.authority_info.key

abbrev pub validate_create : UpdateDelegate → PluginValidationContext → Result ValidationResult
validate_create self ctx =
    if is_resolved ctx
    then approve
    else if contains self.additional_delegates ctx.authority_info.key
    then approve
    else abstain

-- The asset is being taken out of the collection that is passed in.
abbrev pub leaves_collection : PluginValidationContext → Bool
leaves_collection ctx = elim ctx.asset_info [
  | none ↦ false
  | some asset ↦ elim ctx.collection_info [
    | none ↦ false
    | some collection ↦ elim ctx.new_asset_authority [
      | none ↦ false
      | some new_authority ↦
          not (update_authority_eq new_authority (UpdateAuthority.collection collection.key))
    ]
  ]
]

-- The delegate removes itself, and nothing else changes.
abbrev pub removes_itself : UpdateDelegate → UpdateDelegate → Pubkey → Bool
removes_itself self update_delegate authority =
    let existing = to_set self.additional_delegates in
    let new = to_set update_delegate.additional_delegates in
    list_eq (difference existing new) (authority ∷ []) && list_eq (difference new existing) []

abbrev authority_option_eq : Option Authority → Authority → Bool
authority_option_eq none _ = false
authority_option_eq (some a) b = authority_eq a b

module _ ⦃host : Host⦄ where
  abbrev managed_by_update_authority : Plugin → Bool
  managed_by_update_authority plugin =
      authority_eq (plugin_manager plugin) Authority.update_authority

  -- `validate_add_plugin` and `validate_remove_plugin`, which have the same body.
  abbrev pub validate_change_plugin :
      UpdateDelegate → PluginValidationContext → Result ValidationResult
  validate_change_plugin self ctx = elim ctx.target_plugin [
    | some plugin ↦
        if is_delegate self ctx && managed_by_update_authority plugin then approve else abstain
    | none ↦ fail invalid_plugin
  ]

  abbrev pub validate_approve_plugin_authority :
      UpdateDelegate → PluginValidationContext → Result ValidationResult
  validate_approve_plugin_authority self ctx = do
    plugin ← ok_or ctx.target_plugin (custom invalid_plugin)
    if is_delegate self ctx
          && managed_by_update_authority plugin
          && not (plugin_type_eq (plugin_type plugin) PluginType.update_delegate)
        then approve
        else abstain

  abbrev pub validate_revoke_plugin_authority :
      UpdateDelegate → PluginValidationContext → Result ValidationResult
  validate_revoke_plugin_authority self ctx = do
    plugin ← ok_or ctx.target_plugin (custom invalid_plugin)
    if (is_resolved ctx
            || contains self.additional_delegates ctx.authority_info.key
              && not (plugin_type_eq (plugin_type plugin) PluginType.update_delegate))
          && managed_by_update_authority plugin
        then approve
        else abstain

  abbrev pub validate_update : UpdateDelegate → PluginValidationContext → Result ValidationResult
  validate_update self ctx =
      if is_delegate self ctx
      then if leaves_collection ctx
        then (do
          asset ← ok_or ctx.asset_info panic
          on_asset ←
              is_ok (fetch_wrapped_plugin asset_account asset none PluginType.update_delegate)
          if on_asset then reject else approve)
        else approve
      else abstain

  abbrev pub validate_update_plugin :
      UpdateDelegate → PluginValidationContext → Result ValidationResult
  validate_update_plugin self ctx = do
    plugin ← ok_or ctx.target_plugin (custom invalid_plugin)
    if is_delegate self ctx
        then elim plugin [
          | Plugin.update_delegate update_delegate ↦
              if removes_itself self update_delegate ctx.authority_info.key
              then approve
              else abstain
          | _ ↦
              if authority_option_eq ctx.target_plugin_authority Authority.update_authority
              then approve
              else abstain
        ]
        else abstain

  unfoldable pub validation : UpdateDelegate → PluginValidation
  validation self = record default_validation {
    validate_create = validate_create self;
    validate_add_plugin = validate_change_plugin self;
    validate_remove_plugin = validate_change_plugin self;
    validate_approve_plugin_authority = validate_approve_plugin_authority self;
    validate_revoke_plugin_authority = validate_revoke_plugin_authority self;
    validate_update = validate_update self;
    validate_update_plugin = validate_update_plugin self;
  }
