-- ===== src/Storage/Accounts.antt =====
-- programs/mpl-core/src/utils/account.rs, and the saving of state/traits.rs and plugins/mod.rs: writing
-- an account's bytes, resizing it with its rent, and closing it. A failing instruction changes nothing,
-- so an error carries no accounts. The payer is another account than the one that is written: it signs.
use mpl_core.Prelude.{
  ℕ, ◌+◌, ◌-◌, ◌^◌, ltb, leb, ◌==◌, if◌then◌else◌, List, [], ◌∷◌, length, write_at,
}
use mpl_core.Error.{
  Result, ok, err, panic, custom, serialization_error, numerical_overflow_error, guard, ◌>>=◌, ◌>>◌,
}
use mpl_core.State.{AccountInfo, data_len}
use mpl_core.Plugins.{Plugin}
use mpl_core.External.{ExternalPluginAdapter}
use mpl_core.Host.{Host}
use mpl_core.Loading.{SolanaAccount, slice_from}

-- The two accounts that storing changes.
pub record Accounts : Type 0 where
  pub account : AccountInfo
  pub payer : AccountInfo

abbrev pub with_bytes : AccountInfo → List ℕ → AccountInfo
with_bytes account bytes = record account { bytes = bytes }

abbrev pub with_lamports : AccountInfo → ℕ → AccountInfo
with_lamports account lamports = record account { lamports = lamports }

-- `a += b` and `a -= b` on `u64`, which panic on overflow.
abbrev add_u64 : ℕ → ℕ → Result ℕ
add_u64 a b = if ltb (a + b) (2 ^ 64) then ok (a + b) else err panic

abbrev sub_u64 : ℕ → ℕ → Result ℕ
sub_u64 a b = if leb b a then ok (a - b) else err panic

-- `borsh::to_writer(&mut account.data[offset..], value)`
unfoldable pub write_bytes : List ℕ → ℕ → AccountInfo → Result AccountInfo
write_bytes serialized offset account = do
  slice_from account.bytes offset >>= λ _. ok tt
  guard (leb (offset + length serialized) (data_len account)) (custom serialization_error)
  ok (with_bytes account (write_at offset serialized account.bytes))

module _ ⦃host : Host⦄ where
  -- `SolanaAccount::save`
  abbrev pub save : {T : Type 0} → SolanaAccount T → T → ℕ → AccountInfo → Result AccountInfo
  save trait value = write_bytes (trait.serialize value)

  -- `Plugin::save`
  abbrev pub save_plugin : Plugin → ℕ → AccountInfo → Result AccountInfo
  save_plugin plugin = write_bytes (host.encode_plugin plugin)

  -- `ExternalPluginAdapter::save`
  abbrev pub save_external : ExternalPluginAdapter → ℕ → AccountInfo → Result AccountInfo
  save_external plugin = write_bytes (host.encode_external plugin)

  -- The rent that a resizing moves: from the payer where the account grows, back where it shrinks.
  unfoldable pub move_rent : AccountInfo → ℕ → Accounts → Result Accounts
  move_rent system_program new_size accounts =
      let new_minimum = host.minimum_balance new_size in
      let current_minimum = host.minimum_balance (data_len accounts.account) in
      if leb current_minimum new_minimum
      then (host.system_transfer accounts.payer accounts.account system_program
            (new_minimum - current_minimum)
          >>= λ (payer, account). ok (record { account = account; payer = payer }))
      else (add_u64 accounts.payer.lamports (current_minimum - new_minimum) >>= λ payer_lamports.
          sub_u64 accounts.account.lamports (current_minimum - new_minimum) >>= λ account_lamports.
          ok (record {
            account = with_lamports accounts.account account_lamports;
            payer = with_lamports accounts.payer payer_lamports;
          }))

  -- `resize_or_reallocate_account`
  unfoldable pub resize_or_reallocate_account : AccountInfo → ℕ → Accounts → Result Accounts
  resize_or_reallocate_account system_program new_size accounts =
      if new_size == data_len accounts.account
      then ok accounts
      else (move_rent system_program new_size accounts >>= λ moved.
          host.resize moved.account new_size >>= λ resized. ok (record moved { account = resized }))

  -- `account.data.borrow_mut()[0] = byte`
  abbrev set_first : AccountInfo → ℕ → Result AccountInfo
  set_first account byte = elim account.bytes [
    | [] ↦ err panic
    | _ ∷ rest ↦ ok (with_bytes account (byte ∷ rest))
  ]

  -- `close_program_account`: the rent of all bytes but one goes to the payer, and the first byte says
  -- that the account is not initialized.
  unfoldable pub close_program_account : Accounts → Result Accounts
  close_program_account accounts = do
    let account_rent = host.minimum_balance (data_len accounts.account)
    let one_byte_rent = host.minimum_balance 1
    guard (leb one_byte_rent account_rent) (custom numerical_overflow_error)
    let amount = account_rent - one_byte_rent
    guard (ltb (accounts.payer.lamports + amount) (2 ^ 64)) (custom numerical_overflow_error)
    account_lamports ← sub_u64 accounts.account.lamports amount
    resized ← host.resize (with_lamports accounts.account account_lamports) 1
    closed ← set_first resized host.uninitialized_byte
    ok (record {
      account = closed;
      payer = with_lamports accounts.payer (accounts.payer.lamports + amount);
    })
