-- ===== src/Storage/Closed.antt =====
-- programs/mpl-core/src/utils/account.rs: what `close_program_account` leaves of an account.
use mpl_core.Prelude.{
  ℕ, ◌+◌, ◌-◌, ◌^◌, ◌≤◌, ◌<◌, ◌≡◌, ap, ◌∙◌, arith, false, some, List, [], ◌∷◌, length, take,
}
use mpl_core.Error.{ok, err, custom, deserialization_error}
use mpl_core.State.{data_len, key_eq, uninitialized}
use mpl_core.Host.{Host}
use mpl_core.Loading.{SolanaAccount, load, load_key}
use mpl_core.Storage.Accounts.{Accounts, close_program_account, with_bytes, with_lamports}
use mpl_core.Storage.Runtime.{IsRuntime}

module _ ⦃host : Host⦄ (runtime : IsRuntime host) (accounts : Accounts) where
  -- The rent of all bytes but one.
  abbrev pub returned : ℕ
  returned = host.minimum_balance (data_len accounts.account) - host.minimum_balance 1

  -- The accounts after closing.
  abbrev pub closed : Accounts
  closed = record {
    account =
        with_bytes (with_lamports accounts.account (accounts.account.lamports - returned))
          (host.uninitialized_byte ∷ []);
    payer = with_lamports accounts.payer (accounts.payer.lamports + returned);
  }

  closed-all :
      (first : ℕ) (others : List ℕ)
      → accounts.account.bytes ≡ first ∷ others
      → host.minimum_balance 1 ≤ host.minimum_balance (data_len accounts.account)
      → accounts.payer.lamports + returned < 2 ^ 64
      → returned ≤ accounts.account.lamports
      → close_program_account accounts ≡ ok closed
  unfolding close_program_account
  closed-all first others stored rent room pays =
      let resized =
        runtime.shrink_lem (with_lamports accounts.account (accounts.account.lamports - returned)) 1
          (omega (arith, ap length stored))
        ∙ ap
            (λ bytes. ok (
              with_bytes (with_lamports accounts.account (accounts.account.lamports - returned))
                (take 1 bytes)))
            stored in
      ground (arith, resized, stored)

  -- `close_program_account`, on an account that is not empty, whose lamports cover the rent of its bytes
  -- but one, with a payer who has room for it, succeeds: one byte is left, that rent is the payer's, and
  -- nothing is loaded from the account any more, where that byte is the one of `Key::Uninitialized` and
  -- the type to load has another key.
  pub close_program_account-closes :
      {T : Type 0} (trait : SolanaAccount T) (first : ℕ) (others : List ℕ)
      → accounts.account.bytes ≡ first ∷ others
      → host.minimum_balance 1 ≤ host.minimum_balance (data_len accounts.account)
      → accounts.payer.lamports + returned < 2 ^ 64
      → returned ≤ accounts.account.lamports
      → host.key_from_u8 host.uninitialized_byte ≡ some uninitialized
      → key_eq uninitialized trait.account_key ≡ false
      → (close_program_account accounts ≡ ok closed)
        × (closed.account.lamports + closed.payer.lamports
            ≡ accounts.account.lamports + accounts.payer.lamports)
        × (load trait closed.account 0 ≡ err (custom deserialization_error))
  unfolding load load_key
  close_program_account-closes trait first others stored rent room pays byte other =
      (closed-all first others stored rent room pays, omega arith, ground (arith, byte, other))
