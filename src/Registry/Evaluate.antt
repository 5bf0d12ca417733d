-- ===== src/Registry/Evaluate.antt =====
-- programs/mpl-core/src/plugins/plugin_registry.rs: `check_registry` and `check_adapter_registry`,
-- which fill the maps of checks, and programs/mpl-core/src/plugins/external_plugin_adapters.rs:
-- `ExternalPluginAdapterKey::from_record`.
use mpl_core.Prelude.{ℕ, ◌+◌, List, [], ◌∷◌, none, some, if◌then◌else◌, ◌^◌, ltb}
use mpl_core.Prelude.BTreeMap.{BTreeMap, insert}
use mpl_core.Error.{Result, ok, fail, ok_or, borsh_io_error, numerical_overflow, ◌>>=◌}
use mpl_core.State.{AccountInfo, Key}
use mpl_core.Plugins.{PluginType, plugin_type_cmp}
use mpl_core.External.{
  ExternalPluginAdapterType, ExternalPluginAdapterKey, HookableLifecycleEvent, event_eq,
  ExternalCheckResult, external_key_cmp,
}
use mpl_core.Registry.Types.{RegistryRecord, ExternalRegistryRecord}
use mpl_core.Host.{Host, Decoder}
use mpl_core.Loading.{slice_from}
use mpl_core.Lifecycle.{CheckResult}

abbrev pub CheckMap : Type 0
CheckMap = BTreeMap PluginType (Key × CheckResult × RegistryRecord)

abbrev pub ExternalCheckMap : Type 0
ExternalCheckMap =
    BTreeMap ExternalPluginAdapterKey (Key × ExternalCheckResult × ExternalRegistryRecord)

-- `PluginRegistryV1::check_registry`
unfoldable pub check_registry :
    List RegistryRecord → Key → (PluginType → CheckResult) → CheckMap → CheckMap
check_registry [] key check_fp result = result
check_registry (r ∷ registry) key check_fp result =
    check_registry registry key check_fp
      (insert plugin_type_cmp r.plugin_type (key, check_fp r.plugin_type, r) result)

-- `usize::checked_add(1)`; a `usize` has 64 bits on the chain.
abbrev pub checked_add : ℕ → ℕ → Result ℕ
checked_add a b = if ltb (a + b) (2 ^ 64) then ok (a + b) else fail numerical_overflow

module _ ⦃host : Host⦄ where
  abbrev pub decode_at : {T : Type 0} → Decoder T → AccountInfo → ℕ → Result T
  decode_at decode account offset = do
    bytes ← slice_from account.bytes offset
    ok_or (decode bytes) borsh_io_error

  -- `ExternalPluginAdapterKey::from_record`
  unfoldable pub from_record :
      AccountInfo → ExternalRegistryRecord → Result ExternalPluginAdapterKey
  from_record account r = do
    offset ← checked_add r.offset 1
    elim r.plugin_type [
      | ExternalPluginAdapterType.lifecycle_hook ↦
          decode_at host.decode_pubkey account offset >>= λ k.
          ok (ExternalPluginAdapterKey.lifecycle_hook k)
      | ExternalPluginAdapterType.linked_lifecycle_hook ↦
          decode_at host.decode_pubkey account offset >>= λ k.
          ok (ExternalPluginAdapterKey.linked_lifecycle_hook k)
      | ExternalPluginAdapterType.oracle ↦ decode_at host.decode_pubkey account offset >>= λ k.
          ok (ExternalPluginAdapterKey.oracle k)
      | ExternalPluginAdapterType.app_data ↦ decode_at host.decode_authority account offset >>= λ a.
          ok (ExternalPluginAdapterKey.app_data a)
      | ExternalPluginAdapterType.linked_app_data ↦
          decode_at host.decode_authority account offset >>= λ a.
          ok (ExternalPluginAdapterKey.linked_app_data a)
      | ExternalPluginAdapterType.data_section ↦
          decode_at host.decode_linked_data_key account offset >>= λ k.
          ok (ExternalPluginAdapterKey.data_section k)
      | ExternalPluginAdapterType.agent_identity ↦ ok ExternalPluginAdapterKey.agent_identity
    ]

  -- The inner loop, over the events that one record has checks for.
  abbrev check_events :
      List (HookableLifecycleEvent × ExternalCheckResult)
      → AccountInfo
      → Key
      → HookableLifecycleEvent
      → ExternalRegistryRecord
      → ExternalCheckMap
      → Result ExternalCheckMap
  check_events [] account key event r result = ok result
  check_events ((e, check) ∷ checks) account key event r result = do
    result' ←
        if event_eq e event
        then (from_record account r >>= λ plugin_key.
            ok (insert external_key_cmp plugin_key (key, check, r) result))
        else ok result
    check_events checks account key event r result'

  abbrev events_of : ExternalRegistryRecord → List (HookableLifecycleEvent × ExternalCheckResult)
  events_of r = elim r.lifecycle_checks [ some checks ↦ checks | none ↦ [] ]

  -- `PluginRegistryV1::check_adapter_registry`
  unfoldable pub check_adapter_registry :
      List ExternalRegistryRecord
      → AccountInfo
      → Key
      → HookableLifecycleEvent
      → ExternalCheckMap
      → Result ExternalCheckMap
  check_adapter_registry [] account key event result = ok result
  check_adapter_registry (r ∷ registry) account key event result = do
    result' ← check_events (events_of r) account key event r result
    check_adapter_registry registry account key event result'
