-- ===== src/Host.antt =====
-- What the program uses and src/ does not define: the borsh decoders and encoders that are derived
-- for the program's types, the addresses of programs, and functions of solana_program, mpl_utils and
-- mpl_agent_tools. Every definition that needs one takes a `Host` as an instance argument.
use mpl_core.Prelude.{ℕ, List, Option}
use mpl_core.Error.{Result, ProgramError}
use mpl_core.State.{Pubkey, Text, Authority, Key, AccountInfo, AssetV1, CollectionV1}
use mpl_core.Plugins.{Plugin}
use mpl_core.External.{ExternalPluginAdapter, LinkedDataKey, OracleValidation}
use mpl_core.Registry.{PluginHeaderV1, PluginRegistryV1, RegistryRecord, ExternalRegistryRecord}

-- `T::deserialize(&mut bytes)`; it reads a prefix, and `none` is an error.
abbrev pub Decoder : Type 0 → Type 0
Decoder T = List ℕ → Option T

pub record Host : Type 0 where
  -- `Key::from_u8`
  pub key_from_u8 : ℕ → Option Key
  pub decode_asset : Decoder AssetV1
  pub decode_collection : Decoder CollectionV1
  pub decode_header : Decoder PluginHeaderV1
  pub decode_registry : Decoder PluginRegistryV1
  pub decode_plugin : Decoder Plugin
  pub decode_external : Decoder ExternalPluginAdapter
  -- `borsh::to_vec(value)`
  pub encode_asset : AssetV1 → List ℕ
  pub encode_collection : CollectionV1 → List ℕ
  pub encode_header : PluginHeaderV1 → List ℕ
  pub encode_registry : PluginRegistryV1 → List ℕ
  pub encode_plugin : Plugin → List ℕ
  pub encode_external : ExternalPluginAdapter → List ℕ
  pub encode_record : RegistryRecord → List ℕ
  pub encode_external_record : ExternalRegistryRecord → List ℕ
  pub encode_authority : Authority → List ℕ
  pub decode_pubkey : Decoder Pubkey
  pub decode_authority : Decoder Authority
  pub decode_linked_data_key : Decoder LinkedDataKey
  pub decode_oracle_validation : Decoder OracleValidation
  -- `crate::ID`, and the IDs of other programs
  pub program_id : Pubkey
  pub bubblegum_id : Pubkey
  pub agent_identity_id : Pubkey
  pub agent_tools_id : Pubkey
  -- `Pubkey::as_ref`, `Pubkey::find_program_address(seeds, program)` and the texts used as seeds
  pub pubkey_bytes : Pubkey → Text
  pub find_program_address : List Text → Pubkey → Pubkey
  pub mpl_core_prefix : Text
  pub agent_identity_prefix : Text
  -- `assert_signer`, and `assert_derivation(program, account, seeds, error)`
  pub assert_signer : AccountInfo → Result (Unit {0})
  pub assert_derivation : Pubkey → AccountInfo → List Text → ProgramError → Result (Unit {0})
  -- `AgentKey::ExecutionDelegateRecordV1 as u8`, and the record's asset and authority
  pub execution_delegate_key : ℕ
  pub execution_delegate_record : AccountInfo → Result (Pubkey × Pubkey)
  -- `Key::Uninitialized.to_u8().unwrap()`
  pub uninitialized_byte : ℕ
  -- `rent.minimum_balance(size)`, `account.resize(size)` and
  -- `sol_memmove(base.add(dst), base.add(src), n)` and `sol_memcpy(&mut bytes[dst..], data, n)`
  pub minimum_balance : ℕ → ℕ
  pub resize : AccountInfo → ℕ → Result AccountInfo
  pub sol_memmove : List ℕ → (dst src n : ℕ) → List ℕ
  pub sol_memcpy : List ℕ → (dst : ℕ) → List ℕ → List ℕ
  -- `invoke(&system_instruction::transfer(from, to, lamports), ..)`: both accounts afterwards; the
  -- accounts are the payer, the target and the system program
  pub system_transfer :
      AccountInfo → AccountInfo → AccountInfo → ℕ → Result (AccountInfo × AccountInfo)
  pub system_program_id : Pubkey
  pub spl_noop_id : Pubkey
