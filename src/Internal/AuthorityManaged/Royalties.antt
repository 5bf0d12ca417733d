-- ===== src/Internal/AuthorityManaged/Royalties.antt =====
-- programs/mpl-core/src/plugins/internal/authority_managed/royalties.rs.
use mpl_core.Prelude.{
  Bool, true, some, ◌&&◌, ◌||◌, not, if◌then◌else◌, List, contains, ◌==◌, ltb, ℕ, ◌+◌, min, [], ◌∷◌,
}
use mpl_core.Error.{
  Result, fail, ok_or, custom, invalid_plugin, invalid_authority, invalid_plugin_setting,
  missing_new_owner, ◌>>=◌,
}
use mpl_core.State.{Pubkey}
use mpl_core.Plugins.{Plugin, Royalties, Creator, RuleSet, program_allow_list, program_deny_list}
use mpl_core.Lifecycle.{
  PluginValidationContext, PluginValidation, default_validation, ValidationResult, reject, abstain,
  contains_authority,
}

-- `creators.iter().fold(0u8, |acc, creator| acc.saturating_add(creator.percentage))`
abbrev pub percentage_total : ℕ → List Creator → ℕ
percentage_total acc [] = acc
percentage_total acc (creator ∷ creators) =
    percentage_total (min (acc + creator.percentage) 255) creators

-- `creators.iter().all(|creator| seen_addresses.insert(creator.address))`
abbrev pub all_unique : List Pubkey → List Creator → Bool
all_unique seen [] = true
all_unique seen (creator ∷ creators) =
    not (contains seen creator.address) && all_unique (creator.address ∷ seen) creators

unfoldable pub validate_royalties : Royalties → Result ValidationResult
validate_royalties r =
    if ltb 10000 r.basis_points
    then fail invalid_plugin_setting
    else if not (percentage_total 0 r.creators == 100)
    then fail invalid_plugin_setting
    else if not (all_unique [] r.creators)
    then fail invalid_plugin_setting
    else abstain

abbrev pub validate_transfer : Royalties → PluginValidationContext → Result ValidationResult
validate_transfer self ctx = do
  new_owner ← ok_or ctx.new_owner (custom missing_new_owner)
  elim self.rule_set [
    | RuleSet.none ↦ abstain
    | program_allow_list allow_list ↦
        if contains allow_list ctx.authority_info.owner && contains allow_list new_owner.owner
        then abstain
        else reject
    | program_deny_list deny_list ↦
        if contains deny_list ctx.authority_info.owner || contains deny_list new_owner.owner
        then reject
        else abstain
  ]

abbrev pub validate_add_plugin : Royalties → PluginValidationContext → Result ValidationResult
validate_add_plugin self ctx = elim ctx.target_plugin [
  | some (Plugin.royalties _) ↦ validate_royalties self
  | _ ↦ abstain
]

abbrev pub validate_update_plugin : Royalties → PluginValidationContext → Result ValidationResult
validate_update_plugin self ctx = do
  plugin_to_update ← ok_or ctx.target_plugin (custom invalid_plugin)
  authorities ← ok_or ctx.resolved_authorities (custom invalid_authority)
  elim plugin_to_update [
    | Plugin.royalties royalties ↦
        if contains_authority authorities ctx.self_authority
        then validate_royalties royalties
        else abstain
    | _ ↦ abstain
  ]

unfoldable pub validation : Royalties → PluginValidation
validation self = record default_validation {
  validate_create = λ _. validate_royalties self;
  validate_transfer = validate_transfer self;
  validate_add_plugin = validate_add_plugin self;
  validate_update_plugin = validate_update_plugin self;
}
