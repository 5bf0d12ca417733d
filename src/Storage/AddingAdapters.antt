-- ===== src/Storage/AddingAdapters.antt =====
-- programs/mpl-core/src/plugins/utils.rs: `initialize_external_plugin_adapter` stores one more adapter.
use mpl_core.Prelude.{
  write_at, ap₂, append-nil, [], ◌∷◌, ap, ℕ, ◌+◌, ◌≤◌, ◌≡◌, refl, ◌∙◌, arith, List, ◌++◌, length,
  drop, Option, none, some, length-append, append_assoc, length-drop, write_at-append,
}
use mpl_core.Error.{Result, ok, ◌>>=◌}
use mpl_core.State.{AccountInfo, plugin_registry_v1}
use mpl_core.Registry.{external_record_len, registry_len}
use mpl_core.Host.{Host}
use mpl_core.Loading.{SolanaAccount, slice_from}
use mpl_core.Storage.Layout.{
  Item, external, StoredAdapter, area, item_bytes, records, external_records, external_record,
  area_offset, registry_of, data_bytes,
}
use mpl_core.Storage.Sizes.{
  area-append, records-append, external_records-append, registry_len-append, external_record_len-at,
  end_of,
}
use mpl_core.Storage.Accounts.{write_bytes, with_bytes}
use mpl_core.Storage.Codec.{
  write_bytes-stored, write_bytes-over, write_bytes-last, slice_from-append,
}
use mpl_core.Storage.Runtime.{IsRuntime}
use mpl_core.Storage.Adapters.{append_data}

module _ ⦃host : Host⦄ (runtime : IsRuntime host) where
  -- Data is copied behind the bytes `before`, into bytes that are there.
  append_data-stored :
      (appended : Option (List ℕ)) (before old : List ℕ) (account : AccountInfo)
      → account.bytes ≡ before ++ old
      → length (data_bytes appended) ≤ length old
      → append_data appended (length before) account
        ≡ ok (
            with_bytes account
              (before ++ (data_bytes appended ++ drop (length (data_bytes appended)) old)))
  append_data-stored none before old account stored fits =
      ap (λ bytes. ok (with_bytes account bytes)) stored
  append_data-stored (some copied) before old account stored fits =
      let sliced =
        ap (λ bytes. slice_from bytes (length before)) stored ∙ slice_from-append before old in
      let copied_over : host.sol_memcpy account.bytes (length before) copied
          ≡ before ++ (copied ++ drop (length copied) old) =
        runtime.memcpy_lem account.bytes copied (length before)
          (omega (arith, ap length stored, length-append before old))
        ∙ ap (write_at (length before) copied) stored
        ∙ write_at-append before copied old in
      ground (arith, sliced, copied_over)

  -- Over C, H, A, R and Z stand then C, H', A, P, the data and R'.
  module _ (C H A R Z H' P R' : List ℕ) (appended : Option (List ℕ)) (account : AccountInfo) where
    abbrev D : List ℕ
    D = data_bytes appended

    abbrev pub saved : (core_end area_end plugin_end data_end : ℕ) → Result AccountInfo
    saved core_end area_end plugin_end data_end = write_bytes H' core_end account >>= λ headed.
        write_bytes P area_end headed >>= λ plugged.
        append_data appended plugin_end plugged >>= λ filled. write_bytes R' data_end filled

    pub four_saves :
        {core_end area_end plugin_end data_end : ℕ}
        → account.bytes ≡ C ++ (H ++ (A ++ R)) ++ Z
        → length H' ≡ length H
        → length P + length D + length R' ≡ length R + length Z
        → core_end ≡ length C
        → area_end ≡ length (C ++ (H' ++ A))
        → plugin_end ≡ length (C ++ (H' ++ A) ++ P)
        → data_end ≡ length (C ++ (H' ++ A) ++ P ++ D)
        → saved core_end area_end plugin_end data_end
          ≡ ok (with_bytes account (C ++ (H' ++ (A ++ (P ++ D) ++ R'))))
    four_saves stored header_size size at_core at_area at_plugin at_data =
        let rest = drop (length P) (R ++ Z) in
        let headed = C ++ (H' ++ (A ++ (R ++ Z))) in
        let plugged = C ++ (H' ++ A) ++ (P ++ rest) in
        let filled = C ++ (H' ++ A) ++ P ++ (D ++ drop (length D) rest) in
        let all = length-append R Z in
        let left = length-drop (length P) (R ++ Z) in
        let s1 =
          write_bytes-over H' C H (A ++ (R ++ Z)) account header_size
            (stored ∙ simp append_assoc refl) in
        let s2 =
          write_bytes-stored P (C ++ (H' ++ A)) (R ++ Z) (with_bytes account headed)
            (simp append_assoc refl) (omega (arith, all)) in
        let s3 =
          append_data-stored appended (C ++ (H' ++ A) ++ P) rest (with_bytes account plugged)
            (simp append_assoc refl) (omega (arith, all, left)) in
        let s4 =
          write_bytes-last R' (C ++ (H' ++ A) ++ P ++ D) (drop (length D) rest)
            (with_bytes account filled) (omega (arith, length-drop (length D) rest, all, left))
            (simp append_assoc refl) in
        let last : (C ++ (H' ++ A) ++ P ++ D) ++ R' ≡ C ++ (H' ++ (A ++ (P ++ D) ++ R')) =
          simp append_assoc refl in
        ground (arith, s1, s2, s3, s4, last, at_core, at_area, at_plugin, at_data)

module _ ⦃host : Host⦄ {T : Type 0} (trait : SolanaAccount T) (core : T) (items : List Item)
    (e : StoredAdapter) where
  abbrev pub adapted : List Item
  adapted = items ++ (external e ∷ [])

  pub area-adapted : area adapted ≡ area items ++ item_bytes (external e)
  area-adapted =
      area-append items (external e ∷ [])
      ∙ ap (λ rest. area items ++ rest) (append-nil (item_bytes (external e)))

  pub registry-adapted : registry_of trait core adapted ≡ record (registry_of trait core items) {
    external_registry =
        external_records (area_offset trait core) items
        ++ (external_record (end_of (area_offset trait core) items) e ∷ []);
  }
  registry-adapted =
      ap₂ (λ rs es. record { key = plugin_registry_v1; registry = rs; external_registry = es })
        (records-append (area_offset trait core) items (external e ∷ [])
          ∙ append-nil (records (area_offset trait core) items))
        (external_records-append (area_offset trait core) items (external e ∷ []))

  pub end-adapted :
      end_of (area_offset trait core) adapted
      ≡ end_of (area_offset trait core) items
        + length (host.encode_external e.adapter)
        + length (data_bytes e.adapter_data)
  end-adapted = omega (
    arith,
    ap length area-adapted,
    length-append (area items) (item_bytes (external e)),
    length-append (host.encode_external e.adapter) (data_bytes e.adapter_data),
  )

  pub registry_len-adapted :
      registry_len (registry_of trait core adapted)
      ≡ registry_len (registry_of trait core items)
        + external_record_len (external_record (end_of (area_offset trait core) items) e)
  registry_len-adapted = omega (
    arith,
    registry_len-append (area_offset trait core) items (external e ∷ []),
    external_record_len-at (end_of (area_offset trait core) items) 0 e,
  )
