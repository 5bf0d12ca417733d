-- ===== src/External/Order.antt =====
-- The derived `Ord` of `ExternalPluginAdapterKey`: by variant, then by what the variant holds.
use mpl_core.Prelude.{ℕ, compare, Ordering}
use mpl_core.State.{Authority}
use mpl_core.External.Types.{LinkedDataKey, ExternalPluginAdapterKey, external_type_index, key_type}

-- Lexicographic: the second comparison counts where the first finds no difference.
abbrev then_with : Ordering → Ordering → Ordering
then_with Ordering.lt _ = Ordering.lt
then_with Ordering.gt _ = Ordering.gt
then_with Ordering.eq o = o

abbrev authority_index : Authority → ℕ
authority_index Authority.none = 0
authority_index Authority.owner = 1
authority_index Authority.update_authority = 2
authority_index (Authority.address _) = 3

abbrev authority_payload : Authority → ℕ
authority_payload (Authority.address a) = a
authority_payload _ = 0

abbrev authority_cmp : Authority → Authority → Ordering
authority_cmp a b =
    then_with (compare (authority_index a) (authority_index b))
      (compare (authority_payload a) (authority_payload b))

abbrev linked_data_key_cmp : LinkedDataKey → LinkedDataKey → Ordering
linked_data_key_cmp (LinkedDataKey.linked_lifecycle_hook a)
      (LinkedDataKey.linked_lifecycle_hook b) =
    compare a b
linked_data_key_cmp (LinkedDataKey.linked_lifecycle_hook _) (LinkedDataKey.linked_app_data _) =
    Ordering.lt
linked_data_key_cmp (LinkedDataKey.linked_app_data _) (LinkedDataKey.linked_lifecycle_hook _) =
    Ordering.gt
linked_data_key_cmp (LinkedDataKey.linked_app_data a) (LinkedDataKey.linked_app_data b) =
    authority_cmp a b

-- The comparison of two keys of one variant.
payload_cmp : ExternalPluginAdapterKey → ExternalPluginAdapterKey → Ordering
payload_cmp (ExternalPluginAdapterKey.lifecycle_hook a)
      (ExternalPluginAdapterKey.lifecycle_hook b) =
    compare a b
payload_cmp (ExternalPluginAdapterKey.oracle a) (ExternalPluginAdapterKey.oracle b) = compare a b
payload_cmp (ExternalPluginAdapterKey.app_data a) (ExternalPluginAdapterKey.app_data b) =
    authority_cmp a b
payload_cmp (ExternalPluginAdapterKey.linked_lifecycle_hook a)
      (ExternalPluginAdapterKey.linked_lifecycle_hook b) =
    compare a b
payload_cmp (ExternalPluginAdapterKey.linked_app_data a)
      (ExternalPluginAdapterKey.linked_app_data b) =
    authority_cmp a b
payload_cmp (ExternalPluginAdapterKey.data_section a) (ExternalPluginAdapterKey.data_section b) =
    linked_data_key_cmp a b
payload_cmp _ _ = Ordering.eq

unfoldable pub external_key_cmp : ExternalPluginAdapterKey → ExternalPluginAdapterKey → Ordering
unfolding payload_cmp
external_key_cmp a b =
    then_with (compare (external_type_index (key_type a)) (external_type_index (key_type b)))
      (payload_cmp a b)
