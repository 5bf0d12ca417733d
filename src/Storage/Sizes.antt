-- ===== src/Storage/Sizes.antt =====
-- plugins/utils.rs: how many bytes plugins take up, and where those behind others stand.
use mpl_core.Prelude.{
  ℕ, ◌+◌, ◌≡◌, refl, ap, sym, ◌∙◌, arith, List, [], ◌∷◌, ◌++◌, length, length-append, append_assoc,
}
use mpl_core.Registry.{
  external_record_len, RegistryRecord, ExternalRegistryRecord, records_len, external_records_len,
  registry_len,
}
use mpl_core.Host.{Host}
use mpl_core.Loading.{SolanaAccount, header_account, registry_account}
use mpl_core.Storage.Layout.{
  registry_at, StoredAdapter, Item, internal, external, area, item_bytes, next, internal_record,
  external_record, records, external_records, layout, area_offset, header_of, registry_of,
  IsCodedMeta,
}

pub records_len-append :
    (rs ss : List RegistryRecord) → records_len (rs ++ ss) ≡ records_len rs + records_len ss
records_len-append [] ss = omega arith
records_len-append (r ∷ rs) ss = omega (arith, records_len-append rs ss)

pub external_records_len-append :
    (rs ss : List ExternalRegistryRecord)
    → external_records_len (rs ++ ss) ≡ external_records_len rs + external_records_len ss
external_records_len-append [] ss = omega arith
external_records_len-append (r ∷ rs) ss = omega (arith, external_records_len-append rs ss)

module _ ⦃host : Host⦄ where
  pub area-append : (xs ys : List Item) → area (xs ++ ys) ≡ area xs ++ area ys
  area-append [] ys = refl
  area-append (x ∷ xs) ys =
      ap (λ rest. item_bytes x ++ rest) (area-append xs ys)
      ∙ sym (append_assoc (item_bytes x) (area xs) (area ys))

  -- The end of what is stored from an offset on.
  abbrev pub end_of : ℕ → List Item → ℕ
  end_of offset items = offset + length (area items)

  end_of-cons :
      (offset : ℕ) (x : Item) (xs : List Item) → end_of (next offset x) xs ≡ end_of offset (x ∷ xs)
  end_of-cons offset x xs = omega (arith, length-append (item_bytes x) (area xs))

  pub records-append :
      (offset : ℕ) (xs ys : List Item)
      → records offset (xs ++ ys) ≡ records offset xs ++ records (end_of offset xs) ys
  records-append offset [] ys = ap (λ n. records n ys) (at_start offset)
    where
      at_start : (n : ℕ) → n ≡ n + 0
      at_start n = omega arith
  records-append offset (internal a p ∷ xs) ys =
      let at = next offset (internal a p) in
      ap (λ rs. internal_record offset a p ∷ rs)
        (records-append at xs ys
          ∙ ap (λ n. records at xs ++ records n ys) (end_of-cons offset (internal a p) xs))
  records-append offset (external e ∷ xs) ys =
      let at = next offset (external e) in
      records-append at xs ys
      ∙ ap (λ n. records at xs ++ records n ys) (end_of-cons offset (external e) xs)

  pub external_records-append :
      (offset : ℕ) (xs ys : List Item)
      → external_records offset (xs ++ ys)
        ≡ external_records offset xs ++ external_records (end_of offset xs) ys
  external_records-append offset [] ys = ap (λ n. external_records n ys) (at_start offset)
    where
      at_start : (n : ℕ) → n ≡ n + 0
      at_start n = omega arith
  external_records-append offset (internal a p ∷ xs) ys =
      let at = next offset (internal a p) in
      external_records-append at xs ys
      ∙ ap (λ n. external_records at xs ++ external_records n ys)
          (end_of-cons offset (internal a p) xs)
  external_records-append offset (external e ∷ xs) ys =
      let at = next offset (external e) in
      ap (λ rs. external_record offset e ∷ rs)
        (external_records-append at xs ys
          ∙ ap (λ n. external_records at xs ++ external_records n ys)
              (end_of-cons offset (external e) xs))

module _ ⦃host : Host⦄ where
  -- A record takes up as many bytes wherever its plugin stands.
  pub records_len-at :
      (m n : ℕ) (xs : List Item) → records_len (records m xs) ≡ records_len (records n xs)
  records_len-at m n [] = refl
  records_len-at m n (internal a p ∷ xs) =
      omega (arith, records_len-at (next m (internal a p)) (next n (internal a p)) xs)
  records_len-at m n (external e ∷ xs) =
      records_len-at (next m (external e)) (next n (external e)) xs

  pub external_record_len-at :
      (m n : ℕ) (e : StoredAdapter)
      → external_record_len (external_record m e) ≡ external_record_len (external_record n e)
  external_record_len-at m n e = ground arith

  pub external_records_len-at :
      (m n : ℕ) (xs : List Item)
      → external_records_len (external_records m xs) ≡ external_records_len (external_records n xs)
  external_records_len-at m n [] = refl
  external_records_len-at m n (internal a p ∷ xs) =
      external_records_len-at (next m (internal a p)) (next n (internal a p)) xs
  external_records_len-at m n (external e ∷ xs) = omega (
    arith,
    external_record_len-at m n e,
    external_records_len-at (next m (external e)) (next n (external e)) xs,
  )

  -- What items add to the length of a registry.
  abbrev pub in_registry : List Item → ℕ
  in_registry xs = records_len (records 0 xs) + external_records_len (external_records 0 xs)

  pub registry_len-append :
      (base : ℕ) (xs ys : List Item)
      → registry_len (registry_at base (xs ++ ys))
        ≡ registry_len (registry_at base xs) + in_registry ys
  registry_len-append base xs ys = omega (
    arith,
    ap records_len (records-append base xs ys),
    ap external_records_len (external_records-append base xs ys),
    records_len-append (records base xs) (records (end_of base xs) ys),
    external_records_len-append (external_records base xs) (external_records (end_of base xs) ys),
    records_len-at (end_of base xs) 0 ys,
    external_records_len-at (end_of base xs) 0 ys,
  )

  in_registry-cons :
      (x : Item) (ys : List Item) → in_registry (x ∷ ys) ≡ in_registry (x ∷ []) + in_registry ys
  in_registry-cons (internal a p) ys = omega (
    arith,
    records_len-at (next 0 (internal a p)) 0 ys,
    external_records_len-at (next 0 (internal a p)) 0 ys,
  )
  in_registry-cons (external e) ys = omega (
    arith,
    records_len-at (next 0 (external e)) 0 ys,
    external_records_len-at (next 0 (external e)) 0 ys,
  )

  -- An item between others adds what it adds alone.
  pub registry_len-insert :
      (base : ℕ) (xs : List Item) (x : Item) (ys : List Item)
      → registry_len (registry_at base (xs ++ (x ∷ ys)))
        ≡ registry_len (registry_at base (xs ++ ys)) + in_registry (x ∷ [])
  registry_len-insert base xs x ys = omega (
    arith,
    registry_len-append base xs (x ∷ ys),
    registry_len-append base xs ys,
    in_registry-cons x ys,
  )

module _ ⦃host : Host⦄ {T : Type 0} (trait : SolanaAccount T) (core : T) where
  pub length-layout :
      (items : List Item)
      → IsCodedMeta trait core items
      → length (layout trait core items)
        ≡ end_of (area_offset trait core) items + registry_len (registry_of trait core items)
  length-layout items coded = omega (
    arith,
    coded.core_coded.sized,
    coded.header_coded.sized,
    coded.registry_coded.sized,
    length-append (trait.serialize core) (
        header_account.serialize (header_of trait core items)
        ++ (area items ++ registry_account.serialize (registry_of trait core items))),
    length-append (header_account.serialize (header_of trait core items))
        (area items ++ registry_account.serialize (registry_of trait core items)),
    length-append (area items) (registry_account.serialize (registry_of trait core items)),
  )
