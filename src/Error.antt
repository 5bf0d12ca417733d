-- ===== src/Error.antt =====
-- programs/mpl-core/src/error.rs: the program's errors, and Rust's `Result` over `ProgramError`.
use mpl_core.Prelude.{ap, sym, ◌∙◌, ◌≡◌, refl, Bool, true, false, Option, none, some}

-- `MplCoreError`
pub data MplCoreError : Type 0 where
  invalid_system_program deserialization_error serialization_error : MplCoreError
  plugins_not_initialized plugin_not_found numerical_overflow incorrect_account : MplCoreError
  incorrect_asset_hash invalid_plugin invalid_authority asset_is_frozen : MplCoreError
  missing_compression_proof cannot_migrate_master_with_supply cannot_migrate_prints : MplCoreError
  cannot_burn_collection plugin_already_exists numerical_overflow_error : MplCoreError
  already_compressed already_decompressed invalid_collection missing_update_authority : MplCoreError
  missing_new_owner missing_system_program not_available invalid_asset : MplCoreError
  missing_collection no_approvals cannot_redelegate invalid_plugin_setting : MplCoreError
  conflicting_authority invalid_log_wrapper_program external_plugin_adapter_not_found : MplCoreError
  external_plugin_adapter_already_exists missing_asset : MplCoreError
  missing_external_plugin_adapter_account oracle_can_reject_only : MplCoreError
  requires_lifecycle_check duplicate_lifecycle_checks invalid_oracle_account_data : MplCoreError
  uninitialized_oracle_account missing_signer invalid_plugin_operation : MplCoreError
  collection_must_be_empty two_data_sources unsupported_operation no_data_sources : MplCoreError
  invalid_plugin_adapter_target cannot_add_data_section : MplCoreError
  permanent_delegates_prevent_move invalid_execute_pda agent_identity_must_sign : MplCoreError
  group_must_be_empty duplicate_entry group_vector_full group_nesting_depth_exceeded : MplCoreError
  inconsistent_group_relationship : MplCoreError

-- `ProgramError`: the custom errors, the ones of the runtime that the program returns, and a panic.
pub data ProgramError : Type 0 where
  custom : MplCoreError → ProgramError
  invalid_account_owner missing_required_signature borsh_io_error panic : ProgramError

-- `Result<T, ProgramError>`
pub data Result {ℓ} (T : Type ℓ) : Type ℓ where
  err : ProgramError → Result T
  ok : T → Result T

pub ok-injective {ℓ} : {T : Type ℓ} {x y : T} → ok x ≡ ok y → x ≡ y
ok-injective same = cc

module _ {ℓ} {T : Type ℓ} where
  -- `return Err(e.into())`
  abbrev pub fail : MplCoreError → Result T
  fail e = err (custom e)

  -- `option.ok_or(e)`
  abbrev pub ok_or : Option T → ProgramError → Result T
  ok_or (some x) e = ok x
  ok_or none e = err e

-- `if !b { return Err(e) }`
abbrev pub guard : Bool → ProgramError → Result (Unit {0})
guard false e = err e
guard true _ = ok tt

infixl 5 ◌>>=◌ ◌>>◌
-- `result?`, and what follows it.
abbrev pub ◌>>=◌ {κ ℓ} : {U : Type κ} {T : Type ℓ} → Result U → (U → Result T) → Result T
err e >>= rest = err e
ok x >>= rest = rest x

abbrev pub ◌>>◌ {κ} : {U : Type κ} → Result (Unit {0}) → Result U → Result U
first >> rest = first >>= λ _. rest

-- Where the whole succeeds, the first part does, and so does the rest at its value.
pub >>=-succeeds {κ ℓ} :
    {U : Type κ} {T : Type ℓ} (first : Result U) (rest : U → Result T) {y : T}
    → (first >>= rest) ≡ ok y
    → (x : U) × (first ≡ ok x) × (rest x ≡ ok y)
>>=-succeeds (err e) rest success = cc
>>=-succeeds (ok x) rest success = (x, refl, success)

-- What follows need only agree where the first part succeeds.
pub >>=-cong {κ ℓ} :
    {U : Type κ} {T : Type ℓ} (first : Result U) (rest rest' : U → Result T)
    → ((x : U) → first ≡ ok x → rest x ≡ rest' x)
    → (first >>= rest) ≡ (first >>= rest')
>>=-cong (err e) rest rest' same = refl
>>=-cong (ok x) rest rest' same = same x refl

-- Where the first part is known to succeed, the rest is what the whole is.
pub >>=-at {κ ℓ} :
    {U : Type κ} {T : Type ℓ} (first : Result U) (rest : U → Result T) {x : U} {y : Result T}
    → first ≡ ok x
    → (first >>= rest) ≡ y
    → rest x ≡ y
>>=-at first rest known whole = ap (λ r. r >>= rest) (sym known) ∙ whole
