-- ===== src/Storage/OtherKeys.antt =====
-- programs/mpl-core/src/plugins/utils.rs: `initialize_external_plugin_adapter` passes the adapters of a list
-- that have other keys, and no others.
use mpl_core.Prelude.{ℕ, ◌≡◌, refl, List, [], ◌∷◌, arith}
use mpl_core.Error.{ok, >>=-succeeds}
use mpl_core.State.{AccountInfo}
use mpl_core.External.{ExternalPluginAdapterKey}
use mpl_core.Registry.Evaluate.{from_record}
use mpl_core.Host.{Host}
use mpl_core.Storage.Adapters.{is_new}
use mpl_core.Storage.Layout.{Item, internal, external, next, external_records, external_record}
use mpl_core.Storage.RemovedAdapters.{AreOthers}

module _ ⦃host : Host⦄ (account : AccountInfo) (key : ExternalPluginAdapterKey) where
  pub is_new-others :
      (offset : ℕ) (items : List Item)
      → AreOthers account key offset items
      → is_new (external_records offset items) key account ≡ ok tt
  is_new-others offset [] others = refl
  is_new-others offset (internal a p ∷ items) others =
      is_new-others (next offset (internal a p)) items others
  is_new-others offset (external e ∷ items) ((k, read, other), others) =
      ground (arith, read, other, is_new-others (next offset (external e)) items others)

  pub others-is_new :
      (offset : ℕ) (items : List Item)
      → is_new (external_records offset items) key account ≡ ok tt
      → AreOthers account key offset items
  others-is_new offset [] h = tt
  others-is_new offset (internal a p ∷ items) h = others-is_new (next offset (internal a p)) items h
  others-is_new offset (external e ∷ items) h =
      let (k, read, h1) = >>=-succeeds (from_record account (external_record offset e)) _ h in
      (
        (k, read, ground (arith, h1)),
        others-is_new (next offset (external e)) items (ground (arith, h1)),
      )
