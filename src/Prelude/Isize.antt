-- ===== src/Prelude/Isize.antt =====
-- Signed 64-bit arithmetic: integers over the native numbers, and Rust's casts and checks.
use Prim.Native.Nat.{ℕ, ◌+◌, ◌-◌, ◌^◌}
use mathlib.Core.Bool.{Bool}
use mathlib.Core.Option.{Option, none, some}
use mpl_core.Prelude.Tests.{ltb, leb, ◌==◌, if◌then◌else◌}

pub data ℤ : Type 0 where
  pos negsuc : ℕ → ℤ

-- `a - b`
abbrev pub sub_ℕ : ℕ → ℕ → ℤ
sub_ℕ a b = if leb b a then pos (a - b) else negsuc (b - a - 1)

infixl 40 ◌+ℤ◌
abbrev pub ◌+ℤ◌ : ℤ → ℤ → ℤ
pos a +ℤ pos b = pos (a + b)
pos a +ℤ negsuc b = sub_ℕ a (b + 1)
negsuc a +ℤ pos b = sub_ℕ b (a + 1)
negsuc a +ℤ negsuc b = negsuc (a + b + 1)

abbrev pub neg : ℤ → ℤ
neg (pos a) = sub_ℕ 0 a
neg (negsuc a) = pos (a + 1)

-- `n as isize`, which wraps around from 2 ^ 63 on.
abbrev pub as_isize : ℕ → ℤ
as_isize n = if ltb n (2 ^ 63) then pos n else sub_ℕ n (2 ^ 64)

abbrev in_isize : ℤ → Bool
in_isize (pos a) = ltb a (2 ^ 63)
in_isize (negsuc a) = ltb a (2 ^ 63)

-- `a.checked_add(b)` and `a.checked_sub(b)` of `isize`
abbrev pub checked_add_isize : ℤ → ℤ → Option ℤ
checked_add_isize a b = if in_isize (a +ℤ b) then some (a +ℤ b) else none

abbrev pub checked_sub_isize : ℤ → ℤ → Option ℤ
checked_sub_isize a b = if in_isize (a +ℤ neg b) then some (a +ℤ neg b) else none

-- `usize::try_from(z).ok()`
abbrev pub to_usize : ℤ → Option ℕ
to_usize (pos a) = some a
to_usize (negsuc a) = none

-- `z as usize`
abbrev pub as_usize : ℤ → ℕ
as_usize (pos a) = a
as_usize (negsuc a) = 2 ^ 64 - 1 - a

abbrev pub is_zero : ℤ → Bool
is_zero (pos a) = a == 0
is_zero (negsuc a) = Bool.false
