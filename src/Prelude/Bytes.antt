-- ===== src/Prelude/Bytes.antt =====
-- Writing into a list at an offset and resizing it, as the program does with an account's bytes.
use Prim.Native.Nat.{ℕ, zero, suc, ◌+◌, ◌-◌, ◌≤◌, min}
use mathlib.Core.Path.{◌≡◌, refl, ap, ap₂, ◌∙◌}
use mathlib.Core.List.{List, [], ◌∷◌, ◌++◌, append-nil, append_assoc}
use native.Mathlib.Omega.{arith}
use mpl_core.Prelude.Lists.{length, drop, length-append}

module _ {ℓ} {A : Type ℓ} where
  abbrev pub take : ℕ → List A → List A
  take zero xs = []
  take (suc n) [] = []
  take (suc n) (x ∷ xs) = x ∷ take n xs

  abbrev pub repeated : A → ℕ → List A
  repeated x zero = []
  repeated x (suc n) = x ∷ repeated x n

  -- `bytes[offset..][..data.len()] = data`
  abbrev pub write_at : ℕ → List A → List A → List A
  write_at offset data' bytes = take offset bytes ++ (data' ++ drop (offset + length data') bytes)

  pub take-append : (xs ys : List A) → take (length xs) (xs ++ ys) ≡ xs
  take-append [] ys = refl
  take-append (x ∷ xs) ys = ap (λ rest. x ∷ rest) (take-append xs ys)

  drop-same : (m n : ℕ) (xs : List A) → m ≡ n → drop m xs ≡ drop n xs
  drop-same m n xs same = ap (λ i. drop i xs) same

  pub drop-append : (xs ys : List A) (n : ℕ) → drop (length xs + n) (xs ++ ys) ≡ drop n ys
  drop-append [] ys n = drop-same (0 + n) n ys (omega arith)
  drop-append (x ∷ xs) ys n =
      drop-same (suc (length xs) + n) (suc (length xs + n)) (x ∷ (xs ++ ys)) (omega arith)
      ∙ drop-append xs ys n

  pub drop-append_all : (xs ys : List A) → drop (length xs) (xs ++ ys) ≡ ys
  drop-append_all [] ys = refl
  drop-append_all (x ∷ xs) ys = drop-append_all xs ys

  pub length-drop : (n : ℕ) (xs : List A) → length (drop n xs) ≡ length xs - n
  length-drop zero xs = omega arith
  length-drop (suc n) [] = omega arith
  length-drop (suc n) (x ∷ xs) = omega (arith, length-drop n xs)

  pub drop-past : (n : ℕ) (xs : List A) → length xs ≤ n → drop n xs ≡ []
  drop-past zero [] h = refl
  drop-past (suc n) [] h = refl
  drop-past zero (x ∷ xs) h = ground arith
  drop-past (suc n) (x ∷ xs) h = drop-past n xs (omega arith)

  pub take-past : (n : ℕ) (xs : List A) → length xs ≤ n → take n xs ≡ xs
  take-past zero [] h = refl
  take-past (suc n) [] h = refl
  take-past zero (x ∷ xs) h = ground arith
  take-past (suc n) (x ∷ xs) h = ap (λ rest. x ∷ rest) (take-past n xs (omega arith))

  pub length-repeated : (x : A) (n : ℕ) → length (repeated x n) ≡ n
  length-repeated x zero = refl
  length-repeated x (suc n) = omega (arith, length-repeated x n)

  length-take : (n : ℕ) (xs : List A) → length (take n xs) ≡ min n (length xs)
  length-take zero xs = omega arith
  length-take (suc n) [] = omega arith
  length-take (suc n) (x ∷ xs) = omega (arith, length-take n xs)

  -- The first n elements, filled up.
  abbrev pub fitted : A → ℕ → List A → List A
  fitted x n xs = take n xs ++ repeated x (n - length xs)

  pub length-fitted : (x : A) (n : ℕ) (xs : List A) → length (fitted x n xs) ≡ n
  length-fitted x n xs = omega (
    arith,
    length-append (take n xs) (repeated x (n - length xs)),
    length-take n xs,
    length-repeated x (n - length xs),
  )

  pub fitted_same : (x : A) (xs : List A) → fitted x (length xs) xs ≡ xs
  fitted_same x xs =
      ap₂ (λ first count. first ++ repeated x count) (take-past (length xs) xs (omega arith))
        (sub-self (length xs))
      ∙ append-nil xs
    where
      sub-self : (n : ℕ) → n - n ≡ 0
      sub-self n = omega arith

  pub fitted_less : (x : A) (n : ℕ) (xs : List A) → n ≤ length xs → fitted x n xs ≡ take n xs
  fitted_less x n xs less =
      ap (λ m. take n xs ++ repeated x m) (none_left n (length xs) less) ∙ append-nil (take n xs)
    where
      none_left : (a b : ℕ) → a ≤ b → a - b ≡ 0
      none_left a b h = omega arith

  take-append_past : (xs ys : List A) (n : ℕ) → take (length xs + n) (xs ++ ys) ≡ xs ++ take n ys
  take-append_past [] ys n = ap (λ m. take m ys) (zero-add n)
    where
      zero-add : (m : ℕ) → 0 + m ≡ m
      zero-add m = omega arith
  take-append_past (x ∷ xs) ys n =
      ap (λ m. take m (x ∷ (xs ++ ys))) (suc-add (length xs) n)
      ∙ ap (λ rest. x ∷ rest) (take-append_past xs ys n)
    where
      suc-add : (m k : ℕ) → suc m + k ≡ suc (m + k)
      suc-add m k = omega arith

  -- What is left in front of a change of size.
  pub fitted-append :
      (x : A) (xs ys : List A) (n : ℕ) → fitted x (length xs + n) (xs ++ ys) ≡ xs ++ fitted x n ys
  fitted-append x xs ys n =
      ap₂ (λ first m. first ++ repeated x m) (take-append_past xs ys n)
        (fewer (length xs) (length ys) (length (xs ++ ys)) (length-append xs ys))
      ∙ append_assoc xs (take n ys) (repeated x (n - length ys))
    where
      fewer : (a b c : ℕ) → c ≡ a + b → a + n - c ≡ n - b
      fewer a b c e = omega arith

  -- Writing behind a prefix.
  pub write_at-append :
      (xs data' ys : List A)
      → write_at (length xs) data' (xs ++ ys) ≡ xs ++ (data' ++ drop (length data') ys)
  write_at-append xs data' ys =
      ap₂ (λ first rest. first ++ (data' ++ rest)) (take-append xs ys)
        (drop-append xs ys (length data'))

  -- Writing over as many elements.
  pub write_at-over :
      (xs data' old ys : List A)
      → length data' ≡ length old
      → write_at (length xs) data' (xs ++ (old ++ ys)) ≡ xs ++ (data' ++ ys)
  write_at-over xs data' old ys same =
      write_at-append xs data' (old ++ ys)
      ∙ ap (λ n. xs ++ (data' ++ drop n (old ++ ys))) same
      ∙ ap (λ rest. xs ++ (data' ++ rest)) (drop-append_all old ys)
