-- ===== src/Storage/Adding.antt =====
-- programs/mpl-core/src/plugins/utils.rs: `initialize_plugin` stores one more plugin.
use mpl_core.Prelude.{
  ap₂, append-nil, false, [], ◌∷◌, ap, any, ℕ, ◌+◌, ◌≡◌, refl, ◌∙◌, arith, List, ◌++◌, length, drop,
  length-append, append_assoc, length-drop,
}
use mpl_core.Error.{Result, ok, ◌>>=◌}
use mpl_core.State.{AccountInfo, Authority, plugin_registry_v1}
use mpl_core.Plugins.{Plugin, PluginType, plugin_type_eq, plugin_len}
use mpl_core.Registry.{record_len, registry_len}
use mpl_core.Host.{Host}
use mpl_core.Loading.{SolanaAccount}
use mpl_core.Storage.Layout.{
  Item, internal, external, area, next, records, external_records, internal_record, area_offset,
  registry_of, IsFree, IsCodedPlugin,
}
use mpl_core.Storage.Sizes.{
  area-append, records-append, external_records-append, records_len-append, end_of,
}
use mpl_core.Storage.Accounts.{write_bytes, with_bytes}
use mpl_core.Storage.Codec.{write_bytes-stored, write_bytes-over, write_bytes-last}

-- Over C, H, A, R and Z stand then C, H', A, P and R'.
module _ (C H A R Z H' P R' : List ℕ) (account : AccountInfo) where
  abbrev pub saved : (core_end area_end plugin_end : ℕ) → Result AccountInfo
  saved core_end area_end plugin_end = write_bytes H' core_end account >>= λ headed.
      write_bytes P area_end headed >>= λ plugged. write_bytes R' plugin_end plugged

  pub three_saves :
      {core_end area_end plugin_end : ℕ}
      → account.bytes ≡ C ++ (H ++ (A ++ R)) ++ Z
      → length H' ≡ length H
      → length P + length R' ≡ length R + length Z
      → core_end ≡ length C
      → area_end ≡ length (C ++ (H' ++ A))
      → plugin_end ≡ length (C ++ (H' ++ A) ++ P)
      → saved core_end area_end plugin_end ≡ ok (with_bytes account (C ++ (H' ++ (A ++ P ++ R'))))
  three_saves stored header_size size at_core at_area at_plugin =
      let headed = C ++ (H' ++ (A ++ (R ++ Z))) in
      let plugged = C ++ (H' ++ A) ++ (P ++ drop (length P) (R ++ Z)) in
      let s1 =
        write_bytes-over H' C H (A ++ (R ++ Z)) account header_size
          (stored ∙ simp append_assoc refl) in
      let s2 =
        write_bytes-stored P (C ++ (H' ++ A)) (R ++ Z) (with_bytes account headed)
          (simp append_assoc refl) (omega (arith, length-append R Z)) in
      let s3 =
        write_bytes-last R' (C ++ (H' ++ A) ++ P) (drop (length P) (R ++ Z))
          (with_bytes account plugged)
          (omega (arith, length-drop (length P) (R ++ Z), length-append R Z))
          (simp append_assoc refl) in
      let last : (C ++ (H' ++ A) ++ P) ++ R' ≡ C ++ (H' ++ (A ++ P ++ R')) =
        simp append_assoc refl in
      ground (arith, s1, s2, s3, last, at_core, at_area, at_plugin)

module _ ⦃host : Host⦄ {T : Type 0} (trait : SolanaAccount T) (core : T) (items : List Item)
    (authority : Authority) (plugin : Plugin) where
  abbrev pub added : List Item
  added = items ++ (internal authority plugin ∷ [])

  pub free-any :
      (t : PluginType) (offset : ℕ) (xs : List Item)
      → IsFree t xs
      → any (λ r. plugin_type_eq r.plugin_type t) (records offset xs) ≡ false
  free-any t offset [] free = refl
  free-any t offset (internal a p ∷ xs) (other, free) =
      ground (arith, other, free-any t (next offset (internal a p)) xs free)
  free-any t offset (external e ∷ xs) free = free-any t (next offset (external e)) xs free

  pub area-added : area added ≡ area items ++ host.encode_plugin plugin
  area-added =
      area-append items (internal authority plugin ∷ [])
      ∙ ap (λ rest. area items ++ rest) (append-nil (host.encode_plugin plugin))

  pub registry-added : registry_of trait core added ≡ record (registry_of trait core items) {
    registry =
        records (area_offset trait core) items
        ++ (internal_record (end_of (area_offset trait core) items) authority plugin ∷ []);
  }
  registry-added =
      ap₂ (λ rs es. record { key = plugin_registry_v1; registry = rs; external_registry = es })
        (records-append (area_offset trait core) items (internal authority plugin ∷ []))
        (external_records-append (area_offset trait core) items (internal authority plugin ∷ [])
          ∙ append-nil (external_records (area_offset trait core) items))

  pub end-added :
      IsCodedPlugin plugin
      → end_of (area_offset trait core) added
        ≡ end_of (area_offset trait core) items + plugin_len plugin
  end-added coded = omega (
    arith,
    ap length area-added,
    length-append (area items) (host.encode_plugin plugin),
    coded.sized,
  )

  pub registry_len-added :
      registry_len (registry_of trait core added)
      ≡ registry_len (registry_of trait core items)
        + record_len (internal_record (end_of (area_offset trait core) items) authority plugin)
  registry_len-added =
      ap registry_len registry-added
      ∙ omega (
        arith,
        records_len-append (records (area_offset trait core) items)
            (internal_record (end_of (area_offset trait core) items) authority plugin ∷ []),
      )
