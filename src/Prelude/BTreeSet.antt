-- ===== src/Prelude/BTreeSet.antt =====
-- The standard library's `BTreeSet` of numbers, as the ascending list of its elements.
use Prim.Native.Nat.{ℕ, compare, Ordering}
use mathlib.Core.Bool.{Bool, true, false, ◌&&◌}
use mathlib.Core.List.{List, [], ◌∷◌}
use mpl_core.Prelude.Lists.{contains}
use mpl_core.Prelude.Tests.{◌==◌, if◌then◌else◌}

abbrev pub set_insert : ℕ → List ℕ → List ℕ
set_insert k [] = k ∷ []
set_insert k (j ∷ s) = elim (compare k j) [
  | Ordering.lt ↦ k ∷ j ∷ s
  | Ordering.eq ↦ j ∷ s
  | Ordering.gt ↦ j ∷ set_insert k s
]

-- `iter().collect()`
abbrev pub to_set : List ℕ → List ℕ
to_set [] = []
to_set (x ∷ xs) = set_insert x (to_set xs)

-- `a.difference(&b).collect()`
abbrev pub difference : List ℕ → List ℕ → List ℕ
difference [] b = []
difference (x ∷ a) b = let rest = difference a b in if contains b x then rest else x ∷ rest

-- `==` of two vectors of numbers.
abbrev pub list_eq : List ℕ → List ℕ → Bool
list_eq [] [] = true
list_eq (x ∷ xs) (y ∷ ys) = x == y && list_eq xs ys
list_eq _ _ = false
