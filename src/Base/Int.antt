-- ===== src/Base/Int.antt =====
-- Signed integers over the native numbers: the order, and the fixed widths of the source.
use Prim.Native.Nat.{ℕ, zero, suc, ◌+◌, ◌-◌, ◌*◌, ◌^◌, ◌≤◌}
use mathlib.Core.Path.{◌≡◌, refl}
use mathlib.Core.Bool.{Bool, true, false}
use mathlib.Core.Option.{Option, none, some}
use native.Mathlib.Omega.{arith}
use beamline_caf.Base.Tests.{ltb, leb, if◌then◌else◌}

-- `negsuc n` is -(n + 1).
pub data ℤ : Type 0 where
  pos : ℕ → ℤ
  negsuc : ℕ → ℤ

abbrev pub pos_part : ℤ → ℕ
pos_part (pos n) = n
pos_part (negsuc n) = 0

abbrev pub neg_part : ℤ → ℕ
neg_part (pos n) = 0
neg_part (negsuc n) = suc n

infix 50 ◌≤ℤ◌
abbrev pub ◌≤ℤ◌ : ℤ → ℤ → Type 0
a ≤ℤ b = pos_part a + neg_part b ≤ pos_part b + neg_part a

abbrev pub leb_ℤ : ℤ → ℤ → Bool
leb_ℤ a b = leb (pos_part a + neg_part b) (pos_part b + neg_part a)

abbrev pub ltb_ℤ : ℤ → ℤ → Bool
ltb_ℤ a b = ltb (pos_part a + neg_part b) (pos_part b + neg_part a)

-- A product of two naturals in a signed type of `w` bits; `none` is the overflow that C++ leaves
-- undefined.
abbrev pub checked_mul : ℕ → ℕ → ℕ → Option ℕ
checked_mul w a b = if ltb (a * b) (2 ^ (w - 1)) then some (a * b) else none

-- `++x` and `--x`.
abbrev pub inc : ℤ → ℤ
inc (pos n) = pos (suc n)
inc (negsuc zero) = pos 0
inc (negsuc (suc n)) = negsuc n

abbrev pub dec : ℤ → ℤ
dec (pos zero) = negsuc 0
dec (pos (suc n)) = pos n
dec (negsuc n) = negsuc (suc n)

pub dec-inc : (a : ℤ) → dec (inc a) ≡ a
dec-inc (pos n) = refl
dec-inc (negsuc zero) = refl
dec-inc (negsuc (suc n)) = refl

pub inc_parts : (a : ℤ) → pos_part (inc a) + neg_part a ≡ pos_part a + neg_part (inc a) + 1
inc_parts (pos n) = omega arith
inc_parts (negsuc zero) = omega arith
inc_parts (negsuc (suc n)) = omega arith

pub dec_parts : (a : ℤ) → pos_part (dec a) + neg_part a + 1 ≡ pos_part a + neg_part (dec a)
dec_parts (pos zero) = omega arith
dec_parts (pos (suc n)) = omega arith
dec_parts (negsuc n) = omega arith

-- a - b of two naturals, and the sum and difference of two integers.
abbrev pub sub_ℕ : ℕ → ℕ → ℤ
sub_ℕ a b = if leb b a then pos (a - b) else negsuc (b - a - 1)

abbrev pub add_ℤ : ℤ → ℤ → ℤ
add_ℤ a b = sub_ℕ (pos_part a + pos_part b) (neg_part a + neg_part b)

abbrev pub sub_ℤ : ℤ → ℤ → ℤ
sub_ℤ a b = sub_ℕ (pos_part a + neg_part b) (neg_part a + pos_part b)

abbrev pub is_zero : ℤ → Bool
is_zero (pos zero) = true
is_zero (pos (suc n)) = false
is_zero (negsuc n) = false
