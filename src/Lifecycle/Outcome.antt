-- ===== src/Lifecycle/Outcome.antt =====
-- programs/mpl-core/src/plugins/lifecycle.rs and utils/mod.rs: what a result of the tally says of the
-- answers, also where an answer after a forced approval was never asked for.
use mpl_core.Prelude.{
  ◌≡◌, refl, Bool, true, false, ◌||◌, Option, none, some, List, [], ◌∷◌, map, any, arith, ◌⊎◌, inl,
  inr, Memᴰ,
}
use mpl_core.Error.{Result, ok, err}
use mpl_core.Lifecycle.Types.{ValidationResult, approved, rejected, pass, force_approved}
use mpl_core.Lifecycle.Tally.{Flags, tally}
use mpl_core.Lifecycle.Strongest.{result_eq}

-- The answer came, and is this result.
abbrev pub is_answer : ValidationResult → Result ValidationResult → Bool
is_answer r (ok s) = result_eq r s
is_answer r (err _) = false

-- Some answer is this result.
abbrev pub answers_with : ValidationResult → List (Result ValidationResult) → Bool
answers_with r answers = any (is_answer r) answers

-- The answer did not come.
abbrev pub is_failure : Result ValidationResult → Bool
is_failure (ok _) = false
is_failure (err _) = true

abbrev pub Outcome : List (Result ValidationResult) → Flags → Option Flags → Type 0
Outcome answers flags none = answers_with force_approved answers ≡ true
Outcome answers flags (some f) =
    (answers_with force_approved answers ≡ false)
    × (any is_failure answers ≡ false)
    × (f.was_rejected ≡ (flags.was_rejected || answers_with rejected answers))
    × (f.was_approved ≡ (flags.was_approved || answers_with approved answers))

pub tally-Outcome :
    (answers : List (Result ValidationResult)) (flags : Flags) (out : Option Flags)
    → tally answers flags ≡ ok out
    → Outcome answers flags out
unfolding tally
tally-Outcome [] flags none h = cc
tally-Outcome [] flags (some f) h = ground arith
tally-Outcome (err e ∷ answers) flags out h = cc
tally-Outcome (ok approved ∷ answers) flags none h =
    ground (arith, tally-Outcome answers (record flags { was_approved = true }) none h)
tally-Outcome (ok approved ∷ answers) flags (some f) h =
    ground (arith, tally-Outcome answers (record flags { was_approved = true }) (some f) h)
tally-Outcome (ok rejected ∷ answers) flags none h =
    ground (arith, tally-Outcome answers (record flags { was_rejected = true }) none h)
tally-Outcome (ok rejected ∷ answers) flags (some f) h =
    ground (arith, tally-Outcome answers (record flags { was_rejected = true }) (some f) h)
tally-Outcome (ok pass ∷ answers) flags none h = ground (arith, tally-Outcome answers flags none h)
tally-Outcome (ok pass ∷ answers) flags (some f) h =
    ground (arith, tally-Outcome answers flags (some f) h)
tally-Outcome (ok force_approved ∷ answers) flags none h = refl
tally-Outcome (ok force_approved ∷ answers) flags (some f) h = cc

-- An answer that is found by the test is in the list.
pub answers_with-mem :
    {A : Type 0} (f : A → Result ValidationResult) (r : ValidationResult) (xs : List A)
    → answers_with r (map f xs) ≡ true
    → (x : A) × Memᴰ x xs × (is_answer r (f x) ≡ true)
answers_with-mem f r [] h = cc
answers_with-mem f r (x ∷ xs) h = elim (or_cases (is_answer r (f x)) h) [
  | inl here ↦ (x, Memᴰ.head refl, here)
  | inr later ↦ let (y, m, e) = answers_with-mem f r xs later in (y, Memᴰ.tail m, e)
]
  where
    or_cases : (a : Bool) {b : Bool} → (a || b) ≡ true → (a ≡ true) ⊎ (b ≡ true)
    or_cases true h' = inl refl
    or_cases false h' = inr h'

pub mem-answers_with :
    {A : Type 0} (f : A → Result ValidationResult) (r : ValidationResult) (xs : List A) (x : A)
    → Memᴰ x xs
    → is_answer r (f x) ≡ true
    → answers_with r (map f xs) ≡ true
mem-answers_with f r [] x m e = elim m [ ]
mem-answers_with f r (y ∷ xs) x (Memᴰ.head p) e = ground (arith, p)
mem-answers_with f r (y ∷ xs) x (Memᴰ.tail m) e = ground (arith, mem-answers_with f r xs x m e)

pub is_answer_eq :
    (r : ValidationResult) (a : Result ValidationResult) → is_answer r a ≡ true → a ≡ ok r
is_answer_eq r (err _) h = cc
is_answer_eq approved (ok s) h = ground arith
is_answer_eq rejected (ok s) h = ground arith
is_answer_eq pass (ok s) h = ground arith
is_answer_eq force_approved (ok s) h = ground arith
