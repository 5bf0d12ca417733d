-- ===== src/Storage/Plugins.antt =====
-- programs/mpl-core/src/plugins/utils.rs: adding a plugin to an account, deleting it, and changing its
-- authority.
use mpl_core.Prelude.{
  ℕ, ◌-◌, ◌==◌, leb, not, List, [], ◌∷◌, ◌++◌, Option, none, some, any, length, if◌then◌else◌, ℤ,
  as_isize, checked_add_isize, checked_sub_isize, to_usize, as_usize, is_zero, neg,
}
use mpl_core.Error.{
  Result, ok, custom, fail, numerical_overflow, plugin_not_found, plugin_already_exists, guard,
  ok_or, ◌>>=◌, ◌>>◌,
}
use mpl_core.State.{AccountInfo, data_len, Authority}
use mpl_core.Plugins.{Plugin, PluginType, plugin_type, plugin_type_eq, plugin_len}
use mpl_core.Registry.{RegistryRecord, record_len}
use mpl_core.Registry.Evaluate.{checked_add}
use mpl_core.Host.{Host}
use mpl_core.Loading.{
  SolanaAccount, load_plugin, header_account, registry_account, load_plugin_meta,
}
use mpl_core.Lifecycle.{manager}
use mpl_core.Storage.Accounts.{
  Accounts, save, save_plugin, resize_or_reallocate_account, with_bytes,
}
use mpl_core.Storage.Meta.{Meta, with_account}
use mpl_core.Storage.Offsets.{bump_offsets}

-- `usize::checked_sub`
abbrev pub checked_sub : ℕ → ℕ → Result ℕ
checked_sub a b = if leb b a then ok (a - b) else fail numerical_overflow

-- The record of a type and the others: `position` and `remove`.
abbrev pub remove_record :
    PluginType → List RegistryRecord → Option (RegistryRecord × List RegistryRecord)
remove_record t [] = none
remove_record t (r ∷ rs) =
    let rest = remove_record t rs in
    if plugin_type_eq r.plugin_type t
    then some (r, rs)
    else elim rest [ none ↦ none | some (found, others) ↦ some (found, r ∷ others) ]

-- The registry in which the first record of a type has another authority, and the one it had.
abbrev pub replace_authority :
    PluginType → Authority → List RegistryRecord → Option (Authority × List RegistryRecord)
replace_authority t authority [] = none
replace_authority t authority (r ∷ rs) =
    let rest = replace_authority t authority rs in
    if plugin_type_eq r.plugin_type t
    then some (r.authority, (record r { authority = authority }) ∷ rs)
    else elim rest [ none ↦ none | some (old, others) ↦ some (old, r ∷ others) ]

module _ ⦃host : Host⦄ where
  -- `initialize_plugin`: the plugin goes where the registry was, and the registry behind it.
  unfoldable pub initialize_plugin : Plugin → Authority → ℕ → AccountInfo → Meta → Result Meta
  initialize_plugin plugin authority header_offset system_program meta = do
    let records = meta.registry.registry
    guard (not (any (λ r. plugin_type_eq r.plugin_type (plugin_type plugin)) records))
        (custom plugin_already_exists)
    let old_registry_offset = meta.header.plugin_registry_offset
    let new_record : RegistryRecord = record {
      plugin_type = plugin_type plugin;
      authority = authority;
      offset = old_registry_offset;
    }
    size_increase ← checked_add (plugin_len plugin) (record_len new_record)
    new_registry_offset ← checked_add old_registry_offset (plugin_len plugin)
    let header = record meta.header { plugin_registry_offset = new_registry_offset }
    let registry = record meta.registry { registry = records ++ (new_record ∷ []) }
    new_size ← checked_add (data_len meta.accounts.account) size_increase
    resized ← resize_or_reallocate_account system_program new_size meta.accounts
    headed ← save header_account header header_offset resized.account
    plugged ← save_plugin plugin old_registry_offset headed
    registered ← save registry_account registry new_registry_offset plugged
    ok (record { header = header; registry = registry; accounts = with_account resized registered })

  -- What `delete_plugin` and `delete_external_plugin_adapter` do with the bytes: those behind the plugin
  -- move over it, the header and the registry are saved, and the account shrinks.
  abbrev pub remove_stored :
      {T : Type 0}
      → SolanaAccount T
      → T
      → (plugin_offset stored_len record_len' : ℕ) → AccountInfo
      → Meta
      → Result Accounts
  remove_stored trait core plugin_offset stored_len record_len' system_program meta = do
    let account = meta.accounts.account
    next_plugin_offset ← checked_add plugin_offset stored_len
    without_record ← checked_sub (data_len account) record_len'
    new_size ← checked_sub without_record stored_len
    new_registry_offset ← checked_sub meta.header.plugin_registry_offset stored_len
    data_to_move ← checked_sub meta.header.plugin_registry_offset next_plugin_offset
    let moved =
        with_bytes account
          (host.sol_memmove account.bytes plugin_offset next_plugin_offset data_to_move)
    let header = record meta.header { plugin_registry_offset = new_registry_offset }
    headed ← save header_account header (trait.len core) moved
    registry ← bump_offsets plugin_offset (neg (as_isize stored_len)) meta.registry
    registered ← save registry_account registry new_registry_offset headed
    resize_or_reallocate_account system_program new_size (with_account meta.accounts registered)

  -- `delete_plugin`
  unfoldable pub delete_plugin :
      {T : Type 0} → SolanaAccount T → PluginType → T → AccountInfo → Accounts → Result Accounts
  delete_plugin trait t core system_program accounts = do
    let account = accounts.account
    guard (not (trait.len core == data_len account)) (custom plugin_not_found)
    meta ← load_plugin_meta trait account core
    found ← ok_or (remove_record t meta.1.registry) (custom plugin_not_found)
    plugin ← load_plugin account found.0.offset
    remove_stored trait core found.0.offset (length (host.encode_plugin plugin))
        (length (host.encode_record found.0)) system_program
        (record {
          header = meta.0;
          registry = record meta.1 { registry = found.1 };
          accounts = accounts;
        })

  -- The difference that a change of authority makes.
  abbrev pub authority_diff : Authority → Authority → Result ℤ
  authority_diff new_authority old_authority =
      ok_or
        (checked_sub_isize (as_isize (length (host.encode_authority new_authority)))
          (as_isize (length (host.encode_authority old_authority))))
        (custom numerical_overflow)

  abbrev pub checked_size : AccountInfo → ℤ → Result ℤ
  checked_size account size_diff =
      ok_or (checked_add_isize (as_isize (data_len account)) size_diff) (custom numerical_overflow)

  -- `approve_authority_on_plugin`
  unfoldable pub approve_authority_on_plugin :
      PluginType → Authority → AccountInfo → Meta → Result Meta
  approve_authority_on_plugin t new_authority system_program meta = do
    found ←
        ok_or (replace_authority t new_authority meta.registry.registry) (custom plugin_not_found)
    size_diff ← authority_diff new_authority found.0
    let registry = record meta.registry { registry = found.1 }
    resized ←
        if is_zero size_diff
        then ok meta.accounts
        else (checked_size meta.accounts.account size_diff >>= λ signed_size.
            ok_or (to_usize signed_size) (custom numerical_overflow) >>= λ new_size.
            resize_or_reallocate_account system_program new_size meta.accounts)
    registered ← save registry_account registry meta.header.plugin_registry_offset resized.account
    ok (record meta { registry = registry; accounts = with_account resized registered })

  -- `revoke_authority_on_plugin`: the authority becomes the type's manager.
  unfoldable pub revoke_authority_on_plugin : PluginType → AccountInfo → Meta → Result Meta
  revoke_authority_on_plugin t system_program meta = do
    found ← ok_or (replace_authority t (manager t) meta.registry.registry) (custom plugin_not_found)
    size_diff ← authority_diff (manager t) found.0
    let registry = record meta.registry { registry = found.1 }
    signed_size ← checked_size meta.accounts.account size_diff
    resized ← resize_or_reallocate_account system_program (as_usize signed_size) meta.accounts
    registered ← save registry_account registry meta.header.plugin_registry_offset resized.account
    ok (record meta { registry = registry; accounts = with_account resized registered })
