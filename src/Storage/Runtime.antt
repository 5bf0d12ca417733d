-- ===== src/Storage/Runtime.antt =====
-- programs/mpl-core/src/utils/account.rs: what resizing does to an account's bytes and to the lamports,
-- under the documented behaviour of the runtime's functions.
use mpl_core.Prelude.{
  ℕ, ◌+◌, ◌-◌, ◌^◌, ◌≤◌, ◌<◌, ◌≡◌, refl, ap, arith, List, length, take, fitted, fitted_same,
  length-fitted, drop, write_at,
}
use mpl_core.Error.{Result, ok, ◌>>=◌, >>=-succeeds}
use mpl_core.State.{AccountInfo, data_len}
use mpl_core.Host.{Host}
use mpl_core.Storage.Meta.{with_account}
use mpl_core.Storage.Accounts.{
  Accounts, with_bytes, with_lamports, move_rent, resize_or_reallocate_account,
}

-- The documented behaviour: where it succeeds, `resize` cuts or fills up with zeros, and it never fails
-- to cut; a successful transfer moves lamports that are there; and copying writes the bytes that it reads before it writes.
pub record IsRuntime (host : Host) : Type 0 where
  pub resize_lem :
      (account resized : AccountInfo) (n : ℕ)
      → host.resize account n ≡ ok resized
      → resized ≡ with_bytes account (fitted 0 n account.bytes)
  pub shrink_lem :
      (account : AccountInfo) (n : ℕ)
      → n ≤ length account.bytes
      → host.resize account n ≡ ok (with_bytes account (take n account.bytes))
  pub transfer_lem :
      (from to program from' to' : AccountInfo) (n : ℕ)
      → host.system_transfer from to program n ≡ ok (from', to')
      → (n ≤ from.lamports)
        × (from' ≡ with_lamports from (from.lamports - n))
        × (to' ≡ with_lamports to (to.lamports + n))
  pub memmove_lem :
      (bytes : List ℕ) (dst src n : ℕ)
      → dst ≤ src
      → src + n ≤ length bytes
      → host.sol_memmove bytes dst src n ≡ write_at dst (take n (drop src bytes)) bytes
  pub memcpy_lem :
      (bytes copied : List ℕ) (dst : ℕ)
      → dst + length copied ≤ length bytes
      → host.sol_memcpy bytes dst copied ≡ write_at dst copied bytes

module _ ⦃host : Host⦄ (runtime : IsRuntime host) (system_program : AccountInfo) (n : ℕ)
    (accounts moved : Accounts) where
  -- Moving rent leaves the bytes and the owner, and no lamport is lost.
  pub record IsMoved : Type 0 where
    pub bytes_kept : moved.account.bytes ≡ accounts.account.bytes
    pub owner_kept : moved.account.owner ≡ accounts.account.owner
    pub lamports_kept :
        moved.account.lamports + moved.payer.lamports
        ≡ accounts.account.lamports + accounts.payer.lamports
    pub rent_kept :
        host.minimum_balance (data_len accounts.account) ≤ accounts.account.lamports
        → host.minimum_balance n ≤ moved.account.lamports

  grown :
      (result : Result (AccountInfo × AccountInfo)) (from : ℕ)
      → host.system_transfer accounts.payer accounts.account system_program from ≡ result
      → (result >>= λ (payer, account). ok (record { account = account; payer = payer })) ≡ ok moved
      → (from ≤ accounts.payer.lamports)
        × (moved.payer ≡ with_lamports accounts.payer (accounts.payer.lamports - from))
        × (moved.account ≡ with_lamports accounts.account (accounts.account.lamports + from))
  grown (Result.err e) from sent h = ground arith
  grown (Result.ok (payer, account)) from sent h = ground (
    arith,
    runtime.transfer_lem accounts.payer accounts.account system_program payer account from sent,
  )

  pub move_rent-IsMoved : move_rent system_program n accounts ≡ ok moved → IsMoved
  unfolding move_rent
  move_rent-IsMoved h = ground (
    arith,
    grown
        (host.system_transfer accounts.payer accounts.account system_program
          (host.minimum_balance n - host.minimum_balance (data_len accounts.account)))
        (host.minimum_balance n - host.minimum_balance (data_len accounts.account)) refl,
  )

  -- A resizing: the bytes are cut or filled up, no lamport is lost, and an account that can pay its rent
  -- still can.
  pub record IsResized : Type 0 where
    pub resized_bytes : moved.account.bytes ≡ fitted 0 n accounts.account.bytes
    pub resized_len : data_len moved.account ≡ n
    pub owner_kept : moved.account.owner ≡ accounts.account.owner
    pub lamports_kept :
        moved.account.lamports + moved.payer.lamports
        ≡ accounts.account.lamports + accounts.payer.lamports
    pub rent_kept :
        host.minimum_balance (data_len accounts.account) ≤ accounts.account.lamports
        → host.minimum_balance n ≤ moved.account.lamports

module _ ⦃host : Host⦄ (runtime : IsRuntime host) (system_program : AccountInfo) (n : ℕ)
    (accounts resized : Accounts) where
  same_size :
      n ≡ data_len accounts.account
      → resized ≡ accounts
      → IsResized runtime system_program n accounts resized
  same_size size same = ground (
    arith,
    size,
    same,
    ap (λ m. fitted 0 m accounts.account.bytes) size,
    fitted_same 0 accounts.account.bytes,
  )

  other_size :
      (move_rent system_program n accounts >>= λ moved.
      host.resize moved.account n >>= λ account. ok (record moved { account = account }))
        ≡ ok resized
      → IsResized runtime system_program n accounts resized
  other_size h =
      let (moved, rent, h') = >>=-succeeds (move_rent system_program n accounts) _ h in
      let (account, fitted, last) = >>=-succeeds (host.resize moved.account n) _ h' in
      let is_moved = move_rent-IsMoved runtime system_program n accounts moved rent in
      let law = runtime.resize_lem moved.account account n fitted in
      ground (arith, is_moved, law, last, length-fitted 0 n accounts.account.bytes)

  -- A successful `resize_or_reallocate_account` leaves the account with the first bytes of its size, filled
  -- up with zeros, with the same owner and the same lamports in both accounts together; and an account
  -- that had the minimum balance of its size has that of its new size.
  pub resize_or_reallocate_account-IsResized :
      resize_or_reallocate_account system_program n accounts ≡ ok resized
      → IsResized runtime system_program n accounts resized
  unfolding resize_or_reallocate_account
  resize_or_reallocate_account-IsResized h = ground (arith, same_size, other_size)

module _ ⦃host : Host⦄ (runtime : IsRuntime host) (system_program : AccountInfo) (n : ℕ)
    (accounts : Accounts) where
  -- The rent of the bytes that go.
  abbrev pub refund : ℕ
  refund = host.minimum_balance (data_len accounts.account) - host.minimum_balance n

  -- The payer has room for that rent and the account has it; fewer bytes need less rent.
  pub record IsRefundable : Type 0 where
    pub rent_falls : host.minimum_balance n < host.minimum_balance (data_len accounts.account)
    pub payer_room : accounts.payer.lamports + refund < 2 ^ 64
    pub account_pays : refund ≤ accounts.account.lamports

  -- The accounts after the refund.
  abbrev pub refunded : Accounts
  refunded = record {
    account = with_lamports accounts.account (accounts.account.lamports - refund);
    payer = with_lamports accounts.payer (accounts.payer.lamports + refund);
  }

  pub resize_or_reallocate_account-same :
      n ≡ data_len accounts.account
      → resize_or_reallocate_account system_program n accounts ≡ ok accounts
  unfolding resize_or_reallocate_account
  resize_or_reallocate_account-same same = ground arith

  -- With other bytes of the same number.
  pub resize_or_reallocate_account-shrinks :
      (bytes : List ℕ)
      → length bytes ≡ data_len accounts.account
      → n < data_len accounts.account
      → IsRefundable
      → resize_or_reallocate_account system_program n
          (with_account accounts (with_bytes accounts.account bytes))
        ≡ ok (with_account refunded (with_bytes refunded.account (take n bytes)))
  unfolding resize_or_reallocate_account move_rent
  resize_or_reallocate_account-shrinks bytes same less refundable = ground (
    arith,
    runtime.shrink_lem (with_bytes refunded.account bytes) n (omega arith),
    ap host.minimum_balance same,
  )
