-- ===== src/Plugins/Lengths.antt =====
-- programs/mpl-core/src/plugins: `DataBlob::len` of the plugins, the bytes that each is stored in.
use mpl_core.Prelude.{ℕ, ◌+◌, ◌*◌, Option, none, some, length, sum, map}
use mpl_core.State.{Text}
use mpl_core.Plugins.Types.{
  Plugin, Creator, RuleSet, program_allow_list, program_deny_list, Royalties, UpdateDelegate,
  Attribute, Attributes, MasterEdition, VerifiedCreatorsSignature, VerifiedCreators,
  AutographSignature, Autograph, Groups,
}

-- `Creator::len`
abbrev creator_len : Creator → ℕ
creator_len _ = 32 + 1

-- `RuleSet::len`
abbrev rule_set_len : RuleSet → ℕ
rule_set_len (program_allow_list allow_list) = 1 + (4 + length allow_list * 32)
rule_set_len (program_deny_list deny_list) = 1 + (4 + length deny_list * 32)
rule_set_len RuleSet.none = 1

-- `Royalties::len`
abbrev royalties_len : Royalties → ℕ
royalties_len royalties =
    2 + 4 + sum (map creator_len royalties.creators) + rule_set_len royalties.rule_set

-- `UpdateDelegate::len`
abbrev update_delegate_len : UpdateDelegate → ℕ
update_delegate_len delegate = 4 + length delegate.additional_delegates * 32

-- `Attribute::len`
abbrev attribute_len : Attribute → ℕ
attribute_len attribute = 4 + 4 + length attribute.key + length attribute.value

-- `Attributes::len`
abbrev attributes_len : Attributes → ℕ
attributes_len attributes = 4 + sum (map attribute_len attributes.attribute_list)

-- `text.map_or(0, |text| 4 + text.len())`
abbrev optional_text_len : Option Text → ℕ
optional_text_len none = 0
optional_text_len (some text) = 4 + length text

-- `max_supply.map_or(0, |_| 4)`
abbrev max_supply_len : Option ℕ → ℕ
max_supply_len none = 0
max_supply_len (some _) = 4

-- `MasterEdition::len`
abbrev master_edition_len : MasterEdition → ℕ
master_edition_len edition =
    1
    + 1
    + 1
    + max_supply_len edition.max_supply
    + optional_text_len edition.name
    + optional_text_len edition.uri

-- `VerifiedCreatorsSignature::len`
abbrev creator_signature_len : VerifiedCreatorsSignature → ℕ
creator_signature_len _ = 32 + 1

-- `VerifiedCreators::len`
abbrev verified_creators_len : VerifiedCreators → ℕ
verified_creators_len creators = 4 + sum (map creator_signature_len creators.signatures)

-- `AutographSignature::len`
abbrev autograph_signature_len : AutographSignature → ℕ
autograph_signature_len signature = 32 + 4 + length signature.message

-- `Autograph::len`
abbrev autograph_len : Autograph → ℕ
autograph_len autograph = 4 + sum (map autograph_signature_len autograph.signatures)

-- `Groups::len`
abbrev groups_len : Groups → ℕ
groups_len groups = 4 + length groups.groups * 32

-- What a plugin adds to its discriminator.
abbrev inner_len : Plugin → ℕ
inner_len (Plugin.royalties royalties) = royalties_len royalties
inner_len (Plugin.freeze_delegate _) = 1
inner_len Plugin.burn_delegate = 0
inner_len Plugin.transfer_delegate = 0
inner_len (Plugin.update_delegate delegate) = update_delegate_len delegate
inner_len (Plugin.permanent_freeze_delegate _) = 1
inner_len (Plugin.attributes attributes) = attributes_len attributes
inner_len Plugin.permanent_transfer_delegate = 0
inner_len Plugin.permanent_burn_delegate = 0
inner_len (Plugin.edition _) = 4
inner_len (Plugin.master_edition edition) = master_edition_len edition
inner_len Plugin.add_blocker = 0
inner_len Plugin.immutable_metadata = 0
inner_len (Plugin.verified_creators creators) = verified_creators_len creators
inner_len (Plugin.autograph autograph) = autograph_len autograph
inner_len Plugin.bubblegum_v2 = 0
inner_len (Plugin.freeze_execute _) = 1
inner_len (Plugin.permanent_freeze_execute _) = 1
inner_len (Plugin.groups groups) = groups_len groups

-- `Plugin::len`
unfoldable pub plugin_len : Plugin → ℕ
plugin_len plugin = 1 + inner_len plugin
