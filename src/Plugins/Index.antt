-- ===== src/Plugins/Index.antt =====
-- programs/mpl-core/src/plugins/mod.rs: a plugin type and its discriminant determine each other.
use mpl_core.Prelude.{◌≡◌, refl, sym, ap, ◌∙◌, List, [], ◌∷◌, some, get_elem?}
use mpl_core.Plugins.Types.{PluginType, plugin_type_index}

abbrev plugin_types : List PluginType
plugin_types =
    PluginType.royalties ∷ PluginType.freeze_delegate ∷ PluginType.burn_delegate
    ∷ PluginType.transfer_delegate ∷ PluginType.update_delegate
    ∷ PluginType.permanent_freeze_delegate ∷ PluginType.attributes
    ∷ PluginType.permanent_transfer_delegate ∷ PluginType.permanent_burn_delegate
    ∷ PluginType.edition ∷ PluginType.master_edition ∷ PluginType.add_blocker
    ∷ PluginType.immutable_metadata ∷ PluginType.verified_creators ∷ PluginType.autograph
    ∷ PluginType.bubblegum_v2 ∷ PluginType.freeze_execute ∷ PluginType.permanent_freeze_execute
    ∷ PluginType.groups ∷ []

plugin_types-index : (t : PluginType) → get_elem? plugin_types (plugin_type_index t) ≡ some t
plugin_types-index PluginType.royalties = refl
plugin_types-index PluginType.freeze_delegate = refl
plugin_types-index PluginType.burn_delegate = refl
plugin_types-index PluginType.transfer_delegate = refl
plugin_types-index PluginType.update_delegate = refl
plugin_types-index PluginType.permanent_freeze_delegate = refl
plugin_types-index PluginType.attributes = refl
plugin_types-index PluginType.permanent_transfer_delegate = refl
plugin_types-index PluginType.permanent_burn_delegate = refl
plugin_types-index PluginType.edition = refl
plugin_types-index PluginType.master_edition = refl
plugin_types-index PluginType.add_blocker = refl
plugin_types-index PluginType.immutable_metadata = refl
plugin_types-index PluginType.verified_creators = refl
plugin_types-index PluginType.autograph = refl
plugin_types-index PluginType.bubblegum_v2 = refl
plugin_types-index PluginType.freeze_execute = refl
plugin_types-index PluginType.permanent_freeze_execute = refl
plugin_types-index PluginType.groups = refl

pub plugin_type_index-injective :
    (t u : PluginType) → plugin_type_index t ≡ plugin_type_index u → t ≡ u
plugin_type_index-injective t u h =
    let e = sym (plugin_types-index t) ∙ ap (get_elem? plugin_types) h ∙ plugin_types-index u in cc
