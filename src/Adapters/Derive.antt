-- ===== src/Adapters/Derive.antt =====
-- programs/mpl-core/src/plugins/external_plugin_adapters.rs: `ExtraAccount::derive` and
-- `transform_seeds`.
use mpl_core.Prelude.{List, [], ◌∷◌, Option, none, some}
use mpl_core.Error.{
  Result, ok, ok_or, custom, missing_collection, missing_asset, missing_new_owner, ◌>>=◌,
}
use mpl_core.State.{Pubkey, Text}
use mpl_core.External.{
  Seed, ExtraAccount, preconfigured_program, preconfigured_collection, preconfigured_owner,
  preconfigured_recipient, preconfigured_asset, custom_pda,
}
use mpl_core.Host.{Host}
use mpl_core.Loading.{load, asset_account}
use mpl_core.Lifecycle.{PluginValidationContext}

module _ ⦃host : Host⦄ (ctx : PluginValidationContext) where
  abbrev collection_key : Result Pubkey
  collection_key = ok_or ctx.collection_info (custom missing_collection) >>= λ info. ok info.key

  abbrev owner_key : Result Pubkey
  owner_key = do
    info ← ok_or ctx.asset_info (custom missing_asset)
    asset ← load asset_account info 0
    ok asset.owner

  abbrev recipient_key : Result Pubkey
  recipient_key = ok_or ctx.new_owner (custom missing_new_owner) >>= λ info. ok info.key

  abbrev asset_key : Result Pubkey
  asset_key = ok_or ctx.asset_info (custom missing_asset) >>= λ info. ok info.key

  -- One round of the loop of `transform_seeds`.
  abbrev transform_seed : Seed → Result Text
  transform_seed Seed.collection = collection_key >>= λ key. ok (host.pubkey_bytes key)
  transform_seed Seed.owner = owner_key >>= λ key. ok (host.pubkey_bytes key)
  transform_seed Seed.recipient = recipient_key >>= λ key. ok (host.pubkey_bytes key)
  transform_seed Seed.asset = asset_key >>= λ key. ok (host.pubkey_bytes key)
  transform_seed (Seed.address key) = ok (host.pubkey_bytes key)
  transform_seed (Seed.bytes bytes) = ok bytes

  -- `transform_seeds`
  pub transform_seeds : List Seed → Result (List Text)
  transform_seeds [] = ok []
  transform_seeds (seed ∷ seeds) = do
    transformed ← transform_seed seed
    rest ← transform_seeds seeds
    ok (transformed ∷ rest)

  abbrev derive_from : Pubkey → Result Pubkey → Result Pubkey
  derive_from program key = do
    key' ← key
    ok (host.find_program_address (host.mpl_core_prefix ∷ host.pubkey_bytes key' ∷ []) program)

  abbrev or_program : Option Pubkey → Pubkey → Pubkey
  or_program none program = program
  or_program (some custom_program) _ = custom_program

  -- `ExtraAccount::derive`
  unfoldable pub derive : ExtraAccount → Pubkey → Result Pubkey
  unfolding transform_seeds
  derive (preconfigured_program _ _) program =
      ok (host.find_program_address (host.mpl_core_prefix ∷ []) program)
  derive (preconfigured_collection _ _) program = derive_from program collection_key
  derive (preconfigured_owner _ _) program = derive_from program owner_key
  derive (preconfigured_recipient _ _) program = derive_from program recipient_key
  derive (preconfigured_asset _ _) program = derive_from program asset_key
  derive (custom_pda seeds custom_program_id _ _) program = do
    transformed ← transform_seeds seeds
    ok (host.find_program_address transformed (or_program custom_program_id program))
  derive (ExtraAccount.address key _ _) program = ok key
