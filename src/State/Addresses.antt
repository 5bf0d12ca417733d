-- ===== src/State/Addresses.antt =====
-- programs/mpl-core/src/state/mod.rs and update_authority.rs: addresses and authorities.
use mpl_core.Prelude.{ℕ, ◌≡◌, refl, Bool, true, false, List, arith, ◌==◌, ==_iff, ◌↔◌}

-- An address, the 32 bytes read as one number; Rust compares addresses as these numbers compare.
abbrev pub Pubkey : Type 0
Pubkey = ℕ

-- `Pubkey::default()`
abbrev pub default_pubkey : Pubkey
default_pubkey = 0

-- A Rust `String`, by its bytes.
abbrev pub Text : Type 0
Text = List ℕ

-- `Authority`
pub data Authority : Type 0 where
  none owner update_authority : Authority
  address : Pubkey → Authority

-- The derived `==` of `Authority`.
abbrev pub authority_eq : Authority → Authority → Bool
authority_eq Authority.none Authority.none = true
authority_eq owner owner = true
authority_eq update_authority update_authority = true
authority_eq (address a) (address b) = a == b
authority_eq _ _ = false

pub authority_eq_iff : (a b : Authority) → (authority_eq a b ≡ true) ↔ (a ≡ b)
authority_eq_iff Authority.none Authority.none = ((λ _. refl), (λ _. refl))
authority_eq_iff owner owner = ((λ _. refl), (λ _. refl))
authority_eq_iff update_authority update_authority = ((λ _. refl), (λ _. refl))
authority_eq_iff (address a) (address b) = ground (arith, ==_iff a b)
authority_eq_iff _ _ = ground arith

-- `UpdateAuthority`
pub data UpdateAuthority : Type 0 where
  none : UpdateAuthority
  address collection : Pubkey → UpdateAuthority

-- The derived `==` of `UpdateAuthority`.
abbrev pub update_authority_eq : UpdateAuthority → UpdateAuthority → Bool
update_authority_eq UpdateAuthority.none UpdateAuthority.none = true
update_authority_eq (UpdateAuthority.address a) (UpdateAuthority.address b) = a == b
update_authority_eq (collection a) (collection b) = a == b
update_authority_eq _ _ = false

-- `UpdateAuthority::key`
abbrev pub update_authority_key : UpdateAuthority → Pubkey
update_authority_key UpdateAuthority.none = default_pubkey
update_authority_key (UpdateAuthority.address a) = a
update_authority_key (collection a) = a

-- `Key`, the account discriminators.
pub data Key : Type 0 where
  uninitialized asset_v1 hashed_asset_v1 plugin_header_v1 : Key
  plugin_registry_v1 collection_v1 group_v1 : Key

-- The derived `==` of `Key`.
abbrev pub key_eq : Key → Key → Bool
key_eq uninitialized uninitialized = true
key_eq asset_v1 asset_v1 = true
key_eq hashed_asset_v1 hashed_asset_v1 = true
key_eq plugin_header_v1 plugin_header_v1 = true
key_eq plugin_registry_v1 plugin_registry_v1 = true
key_eq collection_v1 collection_v1 = true
key_eq group_v1 group_v1 = true
key_eq _ _ = false
