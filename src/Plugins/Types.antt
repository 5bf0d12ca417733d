-- ===== src/Plugins/Types.antt =====
-- programs/mpl-core/src/plugins/mod.rs and internal: the plugins' data. A plugin struct without
-- fields is a constructor without arguments.
use mpl_core.Prelude.{ℕ, Bool, List, Option, compare, Ordering, ◌==◌}
use mpl_core.State.{Pubkey, Text}

-- `PluginType`
pub data PluginType : Type 0 where
  royalties freeze_delegate burn_delegate transfer_delegate update_delegate : PluginType
  permanent_freeze_delegate attributes permanent_transfer_delegate : PluginType
  permanent_burn_delegate edition master_edition add_blocker immutable_metadata : PluginType
  verified_creators autograph bubblegum_v2 freeze_execute permanent_freeze_execute : PluginType
  groups : PluginType

-- The discriminant, by which the derived `Eq` and `Ord` compare.
abbrev pub plugin_type_index : PluginType → ℕ
plugin_type_index royalties = 0
plugin_type_index freeze_delegate = 1
plugin_type_index burn_delegate = 2
plugin_type_index transfer_delegate = 3
plugin_type_index update_delegate = 4
plugin_type_index permanent_freeze_delegate = 5
plugin_type_index attributes = 6
plugin_type_index permanent_transfer_delegate = 7
plugin_type_index permanent_burn_delegate = 8
plugin_type_index edition = 9
plugin_type_index master_edition = 10
plugin_type_index add_blocker = 11
plugin_type_index immutable_metadata = 12
plugin_type_index verified_creators = 13
plugin_type_index autograph = 14
plugin_type_index bubblegum_v2 = 15
plugin_type_index freeze_execute = 16
plugin_type_index permanent_freeze_execute = 17
plugin_type_index groups = 18

abbrev pub plugin_type_eq : PluginType → PluginType → Bool
plugin_type_eq a b = plugin_type_index a == plugin_type_index b

abbrev pub plugin_type_cmp : PluginType → PluginType → Ordering
plugin_type_cmp a b = compare (plugin_type_index a) (plugin_type_index b)

-- `Creator` and `RuleSet` of royalties.rs
pub record Creator : Type 0 where
  pub address : Pubkey
  pub percentage : ℕ

pub data RuleSet : Type 0 where
  none : RuleSet
  program_allow_list program_deny_list : List Pubkey → RuleSet

pub record Royalties : Type 0 where
  pub basis_points : ℕ
  pub creators : List Creator
  pub rule_set : RuleSet

-- `FreezeDelegate`, `PermanentFreezeDelegate`, `FreezeExecute` and `PermanentFreezeExecute`
pub record FreezeDelegate : Type 0 where
  pub frozen : Bool

pub record PermanentFreezeDelegate : Type 0 where
  pub frozen : Bool

pub record FreezeExecute : Type 0 where
  pub frozen : Bool

pub record PermanentFreezeExecute : Type 0 where
  pub frozen : Bool

pub record UpdateDelegate : Type 0 where
  pub additional_delegates : List Pubkey

pub record Attribute : Type 0 where
  pub key : Text
  pub value : Text

pub record Attributes : Type 0 where
  pub attribute_list : List Attribute

pub record Edition : Type 0 where
  pub number : ℕ

pub record MasterEdition : Type 0 where
  pub max_supply : Option ℕ
  pub name : Option Text
  pub uri : Option Text

pub record VerifiedCreatorsSignature : Type 0 where
  pub address : Pubkey
  pub verified : Bool

pub record VerifiedCreators : Type 0 where
  pub signatures : List VerifiedCreatorsSignature

pub record AutographSignature : Type 0 where
  pub address : Pubkey
  pub message : Text

pub record Autograph : Type 0 where
  pub signatures : List AutographSignature

pub record Groups : Type 0 where
  pub groups : List Pubkey

-- `Plugin`
pub data Plugin : Type 0 where
  royalties : Royalties → Plugin
  freeze_delegate : FreezeDelegate → Plugin
  burn_delegate transfer_delegate : Plugin
  update_delegate : UpdateDelegate → Plugin
  permanent_freeze_delegate : PermanentFreezeDelegate → Plugin
  attributes : Attributes → Plugin
  permanent_transfer_delegate permanent_burn_delegate : Plugin
  edition : Edition → Plugin
  master_edition : MasterEdition → Plugin
  add_blocker immutable_metadata : Plugin
  verified_creators : VerifiedCreators → Plugin
  autograph : Autograph → Plugin
  bubblegum_v2 : Plugin
  freeze_execute : FreezeExecute → Plugin
  permanent_freeze_execute : PermanentFreezeExecute → Plugin
  groups : Groups → Plugin

-- `PluginType::from`
abbrev pub plugin_type : Plugin → PluginType
plugin_type (Plugin.royalties _) = PluginType.royalties
plugin_type (Plugin.freeze_delegate _) = PluginType.freeze_delegate
plugin_type Plugin.burn_delegate = PluginType.burn_delegate
plugin_type Plugin.transfer_delegate = PluginType.transfer_delegate
plugin_type (Plugin.update_delegate _) = PluginType.update_delegate
plugin_type (Plugin.permanent_freeze_delegate _) = PluginType.permanent_freeze_delegate
plugin_type (Plugin.attributes _) = PluginType.attributes
plugin_type Plugin.permanent_transfer_delegate = PluginType.permanent_transfer_delegate
plugin_type Plugin.permanent_burn_delegate = PluginType.permanent_burn_delegate
plugin_type (Plugin.edition _) = PluginType.edition
plugin_type (Plugin.master_edition _) = PluginType.master_edition
plugin_type Plugin.add_blocker = PluginType.add_blocker
plugin_type Plugin.immutable_metadata = PluginType.immutable_metadata
plugin_type (Plugin.verified_creators _) = PluginType.verified_creators
plugin_type (Plugin.autograph _) = PluginType.autograph
plugin_type Plugin.bubblegum_v2 = PluginType.bubblegum_v2
plugin_type (Plugin.freeze_execute _) = PluginType.freeze_execute
plugin_type (Plugin.permanent_freeze_execute _) = PluginType.permanent_freeze_execute
plugin_type (Plugin.groups _) = PluginType.groups
