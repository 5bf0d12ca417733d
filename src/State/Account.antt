-- ===== src/State/Account.antt =====
-- The accounts that an instruction is given: the fields of solana_program's `AccountInfo` that the
-- program reads or writes.
use mpl_core.Prelude.{ℕ, Bool, List, length}
use mpl_core.State.Addresses.{Pubkey}

pub record AccountInfo : Type 0 where
  pub key : Pubkey
  pub owner : Pubkey
  pub is_signer : Bool
  pub lamports : ℕ
  -- bytes, each below 256
  pub bytes : List ℕ

-- `data_len()`
abbrev pub data_len : AccountInfo → ℕ
data_len account = length account.bytes
