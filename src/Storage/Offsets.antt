-- ===== src/Storage/Offsets.antt =====
-- programs/mpl-core/src/plugins/plugin_registry.rs: `PluginRegistryV1::bump_offsets`, which moves the
-- offsets of what is stored behind a plugin that grows, shrinks or goes.
use mpl_core.Prelude.{
  ℕ, ltb, Option, none, some, List, [], ◌∷◌, if◌then◌else◌, ℤ, as_isize, checked_add_isize,
  to_usize,
}
use mpl_core.Error.{Result, ok, custom, numerical_overflow, ok_or, ◌>>=◌}
use mpl_core.Registry.{RegistryRecord, ExternalRegistryRecord, PluginRegistryV1}

-- `(offset as isize).checked_add(size_diff)`, as a `usize`
unfoldable pub shift : ℕ → ℤ → Result ℕ
shift offset size_diff = do
  moved ← ok_or (checked_add_isize (as_isize offset) size_diff) (custom numerical_overflow)
  ok_or (to_usize moved) (custom numerical_overflow)

-- The shift of an offset behind `offset`.
abbrev pub shift_after : ℕ → ℤ → ℕ → Result ℕ
shift_after offset size_diff n = if ltb offset n then shift n size_diff else ok n

abbrev pub shift_data_after : ℕ → ℤ → Option ℕ → Result (Option ℕ)
shift_data_after offset size_diff none = ok none
shift_data_after offset size_diff (some n) = shift_after offset size_diff n >>= λ m. ok (some m)

abbrev pub bump_record : ℕ → ℤ → RegistryRecord → Result RegistryRecord
bump_record offset size_diff r = do
  moved ← shift_after offset size_diff r.offset
  ok (record r { offset = moved })

-- An adapter's data moves where the adapter does.
abbrev pub bump_external_record : ℕ → ℤ → ExternalRegistryRecord → Result ExternalRegistryRecord
bump_external_record offset size_diff r =
    if ltb offset r.offset
    then (shift r.offset size_diff >>= λ moved.
        shift_data_after offset size_diff r.data_offset >>= λ data_moved.
        ok (record r { offset = moved; data_offset = data_moved }))
    else ok r

-- A change of every element, which the first error ends.
abbrev pub for_each {ℓ} : {A : Type ℓ} → (A → Result A) → List A → Result (List A)
for_each f [] = ok []
for_each f (x ∷ xs) = f x >>= λ y. for_each f xs >>= λ ys. ok (y ∷ ys)

unfoldable pub bump_offsets : ℕ → ℤ → PluginRegistryV1 → Result PluginRegistryV1
bump_offsets offset size_diff registry = do
  records ← for_each (bump_record offset size_diff) registry.registry
  external_records ← for_each (bump_external_record offset size_diff) registry.external_registry
  ok (record registry { registry = records; external_registry = external_records })
