-- ===== src/State/Collection.antt =====
-- programs/mpl-core/src/state/collection.rs: the collection's data and its counters.
use mpl_core.Prelude.{ℕ, ◌+◌, ◌-◌, ◌^◌, ◌<◌, ◌≡◌, length, ltb, if◌then◌else◌, arith}
use mpl_core.State.Addresses.{Pubkey, Text, Key, collection_v1}
use mpl_core.Error.{Result, ok, fail, numerical_overflow_error}

-- `CollectionV1`
pub record CollectionV1 : Type 0 where
  pub key : Key
  pub update_authority : Pubkey
  pub name : Text
  pub uri : Text
  pub num_minted : ℕ
  pub current_size : ℕ

-- `CollectionV1::BASE_LEN`
abbrev pub collection_base_len : ℕ
collection_base_len = 1 + 32 + 4 + 4 + 4 + 4

-- `CollectionV1::new`
unfoldable pub new_collection : Pubkey → Text → Text → ℕ → ℕ → CollectionV1
new_collection update_authority name uri num_minted current_size = record {
  key = collection_v1;
  update_authority = update_authority;
  name = name;
  uri = uri;
  num_minted = num_minted;
  current_size = current_size;
}

-- `CollectionV1::len`
unfoldable pub collection_len : CollectionV1 → ℕ
collection_len c = collection_base_len + length c.name + length c.uri

-- `u32::checked_add(1)`
abbrev checked_increment : ℕ → Result ℕ
checked_increment n = if ltb (n + 1) (2 ^ 32) then ok (n + 1) else fail numerical_overflow_error

-- `u32::checked_sub(1)`
abbrev checked_decrement : ℕ → Result ℕ
checked_decrement n = if ltb 0 n then ok (n - 1) else fail numerical_overflow_error

-- `CollectionV1::increment_minted`
unfoldable pub increment_minted : CollectionV1 → Result CollectionV1
increment_minted c = elim (checked_increment c.num_minted) [
  | Result.ok n ↦ ok (record c { num_minted = n })
  | Result.err e ↦ Result.err e
]

-- `CollectionV1::increment_size`
unfoldable pub increment_size : CollectionV1 → Result CollectionV1
increment_size c = elim (checked_increment c.current_size) [
  | Result.ok n ↦ ok (record c { current_size = n })
  | Result.err e ↦ Result.err e
]

-- `CollectionV1::decrement_size`
unfoldable pub decrement_size : CollectionV1 → Result CollectionV1
decrement_size c = elim (checked_decrement c.current_size) [
  | Result.ok n ↦ ok (record c { current_size = n })
  | Result.err e ↦ Result.err e
]

-- Counting an asset in and out again gives the collection back, when the counter has room.
pub decrement-increment_size :
    (c : CollectionV1)
    → c.current_size + 1 < 2 ^ 32
    → (d : CollectionV1) × (increment_size c ≡ ok d) × (decrement_size d ≡ ok c)
unfolding increment_size decrement_size
decrement-increment_size c h =
    (record c { current_size = c.current_size + 1 }, ground arith, ground arith)
