-- ===== src/Prelude/BTreeMap.antt =====
-- The standard library's `BTreeMap`, as the list of its entries in ascending key order.
use Prim.Native.Nat.{Ordering}
use mathlib.Core.Path.{refl}
use mathlib.Core.Option.{Option, none, some}
use mathlib.Core.List.{List, [], ◌∷◌, Memᴰ}

abbrev pub BTreeMap {ℓ κ} : Type ℓ → Type κ → Type (ℓ ⊔ κ)
BTreeMap K V = List (K × V)

-- `cmp` is the key's `Ord`.
module _ {ℓ κ} {K : Type ℓ} {V : Type κ} (cmp : K → K → Ordering) where
  abbrev pub insert : K → V → BTreeMap K V → BTreeMap K V
  insert k v [] = (k, v) ∷ []
  insert k v ((j, w) ∷ m) = elim (cmp k j) [
    | Ordering.lt ↦ (k, v) ∷ (j, w) ∷ m
    | Ordering.eq ↦ (k, v) ∷ m
    | Ordering.gt ↦ (j, w) ∷ insert k v m
  ]

  abbrev pub get : K → BTreeMap K V → Option V
  get k [] = none
  get k ((j, w) ∷ m) = elim (cmp k j) [ Ordering.eq ↦ some w | _ ↦ get k m ]

  -- The entry just written is in the map.
  pub mem-insert_self : (k : K) (v : V) (m : BTreeMap K V) → Memᴰ (k, v) (insert k v m)
  mem-insert_self k v [] = Memᴰ.head refl
  mem-insert_self k v ((j, w) ∷ m) =
      elim (cmp k j)
        as (λ o.
          Memᴰ (k, v)
            (elim o [
              | Ordering.lt ↦ (k, v) ∷ (j, w) ∷ m
              | Ordering.eq ↦ (k, v) ∷ m
              | Ordering.gt ↦ (j, w) ∷ insert k v m
            ])) [
              | Ordering.lt ↦ Memᴰ.head refl
              | Ordering.eq ↦ Memᴰ.head refl
              | Ordering.gt ↦ Memᴰ.tail (mem-insert_self k v m)
            ]
