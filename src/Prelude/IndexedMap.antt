-- ===== src/Prelude/IndexedMap.antt =====
-- `BTreeMap` at keys that are compared by a number: what `get` finds after `insert`.
use Prim.Native.Nat.{ℕ, compare, Ordering}
use mathlib.Core.Path.{◌≡◌, refl, sym}
use mathlib.Core.Option.{some}
use mathlib.Core.List.{[], ◌∷◌, Memᴰ}
use native.Mathlib.Omega.{arith, compare-eq}
use mpl_core.Prelude.Tests.{◌==◌, if◌then◌else◌}
use mpl_core.Prelude.BTreeMap.{BTreeMap, insert, get}

module _ {K : Type 0} (index : K → ℕ) where
  abbrev by_index : K → K → Ordering
  by_index a b = compare (index a) (index b)

  module _ {V : Type 0} where
    pub get-insert :
        (k j : K) (v : V) (m : BTreeMap K V)
        → get by_index k (insert by_index j v m)
          ≡ (if index j == index k then some v else get by_index k m)
    get-insert k j v [] = ground arith
    get-insert k j v ((i, w) ∷ m) = ground (arith, get-insert k j v m)

    -- What is found is in the map, under a key of the same number.
    pub get-mem :
        (k : K) (v : V) (m : BTreeMap K V)
        → get by_index k m ≡ some v
        → (j : K) × (index j ≡ index k) × Memᴰ (j, v) m
    get-mem k v [] h = cc
    get-mem k v ((i, w) ∷ m) h = found (get-mem k v m) (compare (index k) (index i)) refl h
      where
        found :
            (get by_index k m ≡ some v → (j : K) × (index j ≡ index k) × Memᴰ (j, v) m)
            → (o : Ordering) → compare (index k) (index i) ≡ o
            → (elim o [ Ordering.eq ↦ some w | _ ↦ get by_index k m ]) ≡ some v
            → (j : K) × (index j ≡ index k) × Memᴰ (j, v) ((i, w) ∷ m)
        found later Ordering.eq p h' = (i, sym (compare-eq (index k) (index i) p), Memᴰ.head (cc))
        found later Ordering.lt p h' = let (j, e, n) = later h' in (j, e, Memᴰ.tail n)
        found later Ordering.gt p h' = let (j, e, n) = later h' in (j, e, Memᴰ.tail n)
