-- ===== src/Storage/AdapterKeys.antt =====
-- programs/mpl-core/src/plugins/utils.rs: `check_plugin_key` and `find_external_plugin_adapter`, which find an
-- external plugin adapter by its key.
use mpl_core.Prelude.{
  ℕ, ◌+◌, ◌==◌, Bool, true, false, List, [], ◌∷◌, Option, none, some, if◌then◌else◌,
}
use mpl_core.Error.{Result, ok, custom, ok_or, ◌>>=◌, deserialization_error}
use mpl_core.State.{AccountInfo, authority_eq}
use mpl_core.External.{ExternalPluginAdapterKey, LinkedDataKey, key_type, external_type_eq}
use mpl_core.Registry.{ExternalRegistryRecord}
use mpl_core.Registry.Evaluate.{checked_add}
use mpl_core.Host.{Host, Decoder}
use mpl_core.Loading.{slice_from}

-- The derived `Eq` of `LinkedDataKey` and `ExternalPluginAdapterKey`
abbrev pub linked_data_key_eq : LinkedDataKey → LinkedDataKey → Bool
linked_data_key_eq (LinkedDataKey.linked_lifecycle_hook a) (LinkedDataKey.linked_lifecycle_hook b) =
    a == b
linked_data_key_eq (LinkedDataKey.linked_app_data a) (LinkedDataKey.linked_app_data b) =
    authority_eq a b
linked_data_key_eq _ _ = false

abbrev pub external_key_eq : ExternalPluginAdapterKey → ExternalPluginAdapterKey → Bool
external_key_eq (ExternalPluginAdapterKey.lifecycle_hook a)
      (ExternalPluginAdapterKey.lifecycle_hook b) =
    a == b
external_key_eq (ExternalPluginAdapterKey.oracle a) (ExternalPluginAdapterKey.oracle b) = a == b
external_key_eq (ExternalPluginAdapterKey.app_data a) (ExternalPluginAdapterKey.app_data b) =
    authority_eq a b
external_key_eq (ExternalPluginAdapterKey.linked_lifecycle_hook a)
      (ExternalPluginAdapterKey.linked_lifecycle_hook b) =
    a == b
external_key_eq (ExternalPluginAdapterKey.linked_app_data a)
      (ExternalPluginAdapterKey.linked_app_data b) =
    authority_eq a b
external_key_eq (ExternalPluginAdapterKey.data_section a)
      (ExternalPluginAdapterKey.data_section b) =
    linked_data_key_eq a b
external_key_eq ExternalPluginAdapterKey.agent_identity ExternalPluginAdapterKey.agent_identity =
    true
external_key_eq _ _ = false

-- The index in the longer list.
abbrev later : Option (ℕ × ExternalRegistryRecord) → Option (ℕ × ExternalRegistryRecord)
later none = none
later (some (index, r)) = some (index + 1, r)

module _ ⦃host : Host⦄ where
  -- What stands behind the first byte of an adapter.
  abbrev field_at : {F : Type 0} → Decoder F → ExternalRegistryRecord → AccountInfo → Result F
  field_at decode r account = do
    offset ← checked_add r.offset 1
    bytes ← slice_from account.bytes offset
    ok_or (decode bytes) (custom deserialization_error)

  abbrev has_key : ExternalRegistryRecord → ExternalPluginAdapterKey → AccountInfo → Result Bool
  has_key r (ExternalPluginAdapterKey.lifecycle_hook address) account =
      field_at host.decode_pubkey r account >>= λ a. ok (a == address)
  has_key r (ExternalPluginAdapterKey.oracle address) account =
      field_at host.decode_pubkey r account >>= λ a. ok (a == address)
  has_key r (ExternalPluginAdapterKey.linked_lifecycle_hook address) account =
      field_at host.decode_pubkey r account >>= λ a. ok (a == address)
  has_key r (ExternalPluginAdapterKey.app_data authority) account =
      field_at host.decode_authority r account >>= λ a. ok (authority_eq a authority)
  has_key r (ExternalPluginAdapterKey.linked_app_data authority) account =
      field_at host.decode_authority r account >>= λ a. ok (authority_eq a authority)
  has_key r (ExternalPluginAdapterKey.data_section key) account =
      field_at host.decode_linked_data_key r account >>= λ k. ok (linked_data_key_eq k key)
  has_key r ExternalPluginAdapterKey.agent_identity account = ok true

  -- `check_plugin_key`
  unfoldable pub check_plugin_key :
      ExternalRegistryRecord → ExternalPluginAdapterKey → AccountInfo → Result Bool
  check_plugin_key r key account =
      if external_type_eq r.plugin_type (key_type key) then has_key r key account else ok false

  -- `find_external_plugin_adapter`: the index and the record, which come together.
  abbrev pub find_external_plugin_adapter :
      List ExternalRegistryRecord
      → ExternalPluginAdapterKey
      → AccountInfo
      → Result (Option (ℕ × ExternalRegistryRecord))
  find_external_plugin_adapter [] key account = ok none
  find_external_plugin_adapter (r ∷ rs) key account = check_plugin_key r key account >>= λ found.
      let rest = find_external_plugin_adapter rs key account in
      if found then ok (some (0, r)) else (rest >>= λ others. ok (later others))
