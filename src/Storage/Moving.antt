-- ===== src/Storage/Moving.antt =====
-- programs/mpl-core/src/plugins/plugin_registry.rs: `bump_offsets` moves exactly the records of what is
-- stored behind an offset.
use mpl_core.Prelude.{
  sym, ◌∙◌, ap₂, ap, ℕ, ◌+◌, ◌^◌, ◌≤◌, ◌<◌, ◌≡◌, refl, arith, List, [], ◌∷◌, ◌++◌, length,
  length-append, ℤ, neg, as_isize,
}
use mpl_core.Error.{◌>>=◌, Result, ok, >>=-succeeds}
use mpl_core.Registry.{PluginRegistryV1}
use mpl_core.State.{plugin_registry_v1}
use mpl_core.Host.{Host}
use mpl_core.Storage.Offsets.{bump_offsets, shift, bump_record, bump_external_record, for_each}
use mpl_core.Storage.Layout.{
  data_bytes, Item, internal, external, area, next, item_bytes, records, external_records,
  external_record, StoredAdapter,
}
use mpl_core.Storage.Sizes.{end_of}

for_each-append :
    {A : Type 0} (f : A → Result A) (xs ys : List A) {xs' ys' : List A}
    → for_each f xs ≡ ok xs'
    → for_each f ys ≡ ok ys'
    → for_each f (xs ++ ys) ≡ ok (xs' ++ ys')
for_each-append f [] ys h h' = ground arith
for_each-append f (x ∷ xs) ys h h' =
    let (y, first, h2) = >>=-succeeds (f x) _ h in
    let (ys'', rest, h3) = >>=-succeeds (for_each f xs) _ h2 in
    let appended = for_each-append f xs ys rest h' in ground (arith, appended, first, h3)

-- From an offset on, a difference moves what stands at `from` to `to`, up to a limit.
abbrev pub Moves : ℤ → ℕ → ℕ → ℕ → Type 0
Moves size_diff from to limit =
    (k : ℕ) → from + k < limit → shift (from + k) size_diff ≡ ok (to + k)

-- Taking away `size` bytes in front moves what stands behind them.
pub shift-taken : (size to : ℕ) → Moves (neg (as_isize size)) (to + size) to (2 ^ 63)
unfolding shift
shift-taken size to k bound = ground arith

module _ ⦃host : Host⦄ (offset : ℕ) (size_diff : ℤ) where
  pub bump_records-before :
      (at : ℕ) (xs : List Item)
      → end_of at xs ≤ offset
      → for_each (bump_record offset size_diff) (records at xs) ≡ ok (records at xs)
  bump_records-before at [] h = refl
  bump_records-before at (internal a p ∷ xs) h =
      let rest =
        bump_records-before (next at (internal a p)) xs
          (omega (arith, length-append (item_bytes (internal a p)) (area xs))) in
      ground (arith, rest)
  bump_records-before at (external e ∷ xs) h =
      bump_records-before (next at (external e)) xs
        (omega (arith, length-append (item_bytes (external e)) (area xs)))

  pub bump_external_records-before :
      (at : ℕ) (xs : List Item)
      → end_of at xs ≤ offset
      → for_each (bump_external_record offset size_diff) (external_records at xs)
        ≡ ok (external_records at xs)
  bump_external_records-before at [] h = refl
  bump_external_records-before at (external e ∷ xs) h =
      let rest =
        bump_external_records-before (next at (external e)) xs
          (omega (arith, length-append (item_bytes (external e)) (area xs))) in
      ground (arith, rest)
  bump_external_records-before at (internal a p ∷ xs) h =
      bump_external_records-before (next at (internal a p)) xs
        (omega (arith, length-append (item_bytes (internal a p)) (area xs)))

  module _ (from to limit : ℕ) (moves : Moves size_diff from to limit)
      (behind : offset < from) where
    pub bump_records-behind :
        (k at at' : ℕ) (xs : List Item)
        → at ≡ from + k
        → at' ≡ to + k
        → end_of at xs < limit
        → for_each (bump_record offset size_diff) (records at xs) ≡ ok (records at' xs)
    bump_records-behind k at at' [] e e' h = refl
    bump_records-behind k at at' (internal a p ∷ xs) e e' h =
        let size = length (item_bytes (internal a p)) in
        let rest =
          bump_records-behind (k + size) (at + size) (at' + size) xs (omega arith) (omega arith)
            (omega (arith, length-append (item_bytes (internal a p)) (area xs))) in
        let moved = moves k (omega (arith, length-append (item_bytes (internal a p)) (area xs))) in
        ground (arith, rest, moved, e, e')
    bump_records-behind k at at' (external x ∷ xs) e e' h =
        let size = length (item_bytes (external x)) in
        bump_records-behind (k + size) (at + size) (at' + size) xs (omega arith) (omega arith)
          (omega (arith, length-append (item_bytes (external x)) (area xs)))

    bump_external-behind :
        (k : ℕ) (x : StoredAdapter)
        → from + (k + length (host.encode_external x.adapter)) < limit
        → bump_external_record offset size_diff (external_record (from + k) x)
          ≡ ok (external_record (to + k) x)
    bump_external-behind k x h =
        ground (arith, moves k (omega arith), moves (k + length (host.encode_external x.adapter)) h)

    bump_external_at :
        (k at at' : ℕ) (x : StoredAdapter)
        → at ≡ from + k
        → at' ≡ to + k
        → end_of at (external x ∷ []) < limit
        → bump_external_record offset size_diff (external_record at x) ≡ ok (external_record at' x)
    bump_external_at k at at' x e e' h =
        ap (λ n. bump_external_record offset size_diff (external_record n x)) e
        ∙ bump_external-behind k x (
            omega (
              arith,
              e,
              h,
              length-append (item_bytes (external x)) [],
              length-append (host.encode_external x.adapter) (data_bytes x.adapter_data),
            ))
        ∙ ap (λ n. ok (external_record n x)) (sym e')

    pub bump_external_records-behind :
        (k at at' : ℕ) (xs : List Item)
        → at ≡ from + k
        → at' ≡ to + k
        → end_of at xs < limit
        → for_each (bump_external_record offset size_diff) (external_records at xs)
          ≡ ok (external_records at' xs)
    bump_external_records-behind k at at' [] e e' h = refl
    bump_external_records-behind k at at' (external x ∷ xs) e e' h =
        let size = length (item_bytes (external x)) in
        let split = length-append (item_bytes (external x)) (area xs) in
        let rest =
          bump_external_records-behind (k + size) (at + size) (at' + size) xs (omega arith)
            (omega arith) (omega (arith, split)) in
        let moved =
          bump_external_at k at at' x e e'
            (omega (arith, split, length-append (item_bytes (external x)) [])) in
        ap₂ (λ r rs. r >>= λ y. rs >>= λ ys. ok (y ∷ ys)) moved rest
    bump_external_records-behind k at at' (internal a p ∷ xs) e e' h =
        let size = length (item_bytes (internal a p)) in
        bump_external_records-behind (k + size) (at + size) (at' + size) xs (omega arith)
          (omega arith) (omega (arith, length-append (item_bytes (internal a p)) (area xs)))

module _ ⦃host : Host⦄ (base : ℕ) (before after : List Item) where
  abbrev gap : ℕ
  gap = end_of base before

  -- The registry of two lists with as many bytes between them.
  abbrev pub apart : ℕ → PluginRegistryV1
  apart from = record {
    key = plugin_registry_v1;
    registry = records base before ++ records from after;
    external_registry = external_records base before ++ external_records from after;
  }

  -- Where the bytes between two lists go, `bump_offsets` moves the records of the second list, and those
  -- of their data, up to the first, and no other.
  pub bump_offsets-closes :
      (size : ℕ)
      → 0 < size
      → end_of (gap + size) after < 2 ^ 63
      → bump_offsets gap (neg (as_isize size)) (apart (gap + size)) ≡ ok (apart gap)
  unfolding bump_offsets
  bump_offsets-closes size some_bytes bound =
      let z = neg (as_isize size) in
      let moves = shift-taken size gap in
      let first =
        for_each-append (bump_record gap z) (records base before) (records (gap + size) after)
          (bump_records-before gap z base before (omega arith))
          (bump_records-behind gap z (gap + size) gap (2 ^ 63) moves (omega arith) 0 (gap + size)
            gap after (omega arith) (omega arith) bound) in
      let second =
        for_each-append (bump_external_record gap z) (external_records base before)
          (external_records (gap + size) after)
          (bump_external_records-before gap z base before (omega arith))
          (bump_external_records-behind gap z (gap + size) gap (2 ^ 63) moves (omega arith) 0
            (gap + size) gap after (omega arith) (omega arith) bound) in
      ap₂
        (λ rs es. rs >>= λ rs'.
          es >>= λ es'. ok (record (apart gap) { registry = rs'; external_registry = es' }))
        first second
