-- ===== src/Prelude/Collect.antt =====
-- What collecting a list into a set, or into a map by a key, keeps of the list.
use Prim.Native.Nat.{ℕ, ◌≤◌, compare}
use mathlib.Core.Path.{◌≡◌, refl, ap, ◌∙◌}
use mathlib.Core.Logic.{◌↔◌}
use mathlib.Core.Bool.{Bool, true, false}
use mathlib.Core.List.{List, [], ◌∷◌}
use mathlib.Core.Option.{Option, some}
use native.Mathlib.Omega.{arith}
use mpl_core.Prelude.Tests.{◌==◌, if◌then◌else◌}
use mpl_core.Prelude.Lists.{contains, collect_set, length, All}
use mpl_core.Prelude.BTreeMap.{BTreeMap, insert, get}
use mpl_core.Prelude.IndexedMap.{get-insert}

-- No number stands twice.
abbrev pub IsDistinct : List ℕ → Type 0
IsDistinct [] = Unit {0}
IsDistinct (x ∷ xs) = (contains xs x ≡ false) × IsDistinct xs

pub collect_set-contains : (xs : List ℕ) (a : ℕ) → contains (collect_set xs) a ≡ contains xs a
collect_set-contains [] a = refl
collect_set-contains (x ∷ xs) a =
    ground (arith, collect_set-contains xs a, collect_set-contains xs x)

collect_set-length : (xs : List ℕ) → length (collect_set xs) ≤ length xs
collect_set-length [] = omega arith
collect_set-length (x ∷ xs) = ground (arith, collect_set-length xs)

-- The set has as many elements as the list only where the list repeats none.
pub collect_set-IsDistinct :
    (xs : List ℕ) → ((length xs == length (collect_set xs)) ≡ true) ↔ IsDistinct xs
collect_set-IsDistinct [] = ground arith
collect_set-IsDistinct (x ∷ xs) =
    ground (arith, collect_set-IsDistinct xs, collect_set-length xs, collect_set-contains xs x)

module _ {A : Type 0} (key : A → ℕ) where
  -- `iter().map(|a| (key(a), a)).collect()`; the last of equal keys stays.
  abbrev pub collect_by : List A → BTreeMap ℕ A → BTreeMap ℕ A
  collect_by [] m = m
  collect_by (x ∷ xs) m = collect_by xs (insert compare (key x) x m)

  -- The last element of a key.
  abbrev pub last_by : ℕ → List A → Option A → Option A
  last_by k [] found = found
  last_by k (x ∷ xs) found = last_by k xs (if key x == k then some x else found)

  pub collect_by-get :
      (k : ℕ) (xs : List A) (m : BTreeMap ℕ A)
      → get compare k (collect_by xs m) ≡ last_by k xs (get compare k m)
  collect_by-get k [] m = refl
  collect_by-get k (x ∷ xs) m =
      collect_by-get k xs (insert compare (key x) x m)
      ∙ ap (last_by k xs) (get-insert (λ n. n) k (key x) x m)

  -- The map's keys are the elements'.
  insert-All :
      (p : ℕ → Bool) (k : ℕ) (x : A) (m : BTreeMap ℕ A)
      → All (λ e. p e.0 ≡ true) (insert compare k x m) ↔ ((p k ≡ true) × All (λ e. p e.0 ≡ true) m)
  insert-All p k x [] = ground arith
  insert-All p k x ((j, w) ∷ m) = ground (arith, insert-All p k x m)

  pub collect_by-All :
      (p : ℕ → Bool) (xs : List A) (m : BTreeMap ℕ A)
      → All (λ e. p e.0 ≡ true) (collect_by xs m)
        ↔ (All (λ x. p (key x) ≡ true) xs × All (λ e. p e.0 ≡ true) m)
  collect_by-All p [] m = ground arith
  collect_by-All p (x ∷ xs) m =
      ground (arith, collect_by-All p xs (insert compare (key x) x m), insert-All p (key x) x m)
