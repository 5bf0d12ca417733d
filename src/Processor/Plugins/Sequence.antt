-- ===== src/Processor/Plugins/Sequence.antt =====
-- programs/mpl-core/src/state/asset.rs: `AssetV1::increment_seq_and_save` leaves the plugins as they are.
use mpl_core.Prelude.{
  ◌+◌, ℕ, ◌≡◌, refl, ap, sym, ◌∙◌, arith, Option, none, some, List, [], ◌++◌, length,
}
use mpl_core.Error.{ok}
use mpl_core.State.{AccountInfo, AssetV1, asset_len}
use mpl_core.Host.{Host}
use mpl_core.Loading.{asset_account, header_account, registry_account}
use mpl_core.Storage.Accounts.{with_bytes}
use mpl_core.Storage.Codec.{IsCoded, write_bytes-over}
use mpl_core.Storage.Layout.{Item, area, area_offset, registry_at, header_at, layout, IsLaidOut}
use mpl_core.Processor.Plugins.Guards.{increment_seq_and_save, save_next_seq, with_next_seq}

module _ ⦃host : Host⦄ (asset : AssetV1) (items : List Item) where
  -- The asset keeps its length.
  pub asset_len-with_next_seq :
      (s : Option ℕ) → asset.seq ≡ s → asset_len (with_next_seq asset) ≡ asset_len asset
  unfolding asset_len
  asset_len-with_next_seq none e = ground (arith, e)
  asset_len-with_next_seq (some n) e = ground (arith, e)

  same_offset : area_offset asset_account (with_next_seq asset) ≡ area_offset asset_account asset
  same_offset = omega (arith, asset_len-with_next_seq asset.seq refl)

  abbrev behind : ℕ → List ℕ
  behind offset =
      header_account.serialize (header_at (offset + length (area items)))
      ++ (area items ++ registry_account.serialize (registry_at offset items))

  unchanged : asset.seq ≡ none → with_next_seq asset ≡ asset
  unchanged e = ground (arith, e)

  pub increment_seq_and_save-stores :
      (account : AccountInfo)
      → IsLaidOut asset_account asset account items
      → IsCoded asset_account asset
      → IsCoded asset_account (with_next_seq asset)
      → increment_seq_and_save asset account
        ≡ ok (with_bytes account (layout asset_account (with_next_seq asset) items))
  unfolding increment_seq_and_save
  increment_seq_and_save-stores account laid_out coded coded' = stores asset.seq refl
    where
      stores :
          (s : Option ℕ)
          → asset.seq ≡ s
          → increment_seq_and_save asset account
            ≡ ok (with_bytes account (layout asset_account (with_next_seq asset) items))
      stores none e =
          ap (λ s. save_next_seq s asset account) e
          ∙ ap (λ bytes. ok (with_bytes account bytes))
              (laid_out.stored ∙ ap (λ a. layout asset_account a items) (sym (unchanged e)))
      stores (some n) e =
          ap (λ s. save_next_seq s asset account) e
          ∙ write_bytes-over (host.encode_asset (with_next_seq asset)) [] (host.encode_asset asset)
              (behind (area_offset asset_account asset)) account
              (omega (arith, coded.sized, coded'.sized, asset_len-with_next_seq asset.seq refl))
              laid_out.stored
          ∙ ap (λ n. ok (with_bytes account (host.encode_asset (with_next_seq asset) ++ behind n)))
              (sym same_offset)
