-- ===== src/Base/Numbers.antt =====
-- The standard library's readings and prints of integers: `std::stoi`, `std::stoll`,
-- `std::to_string`.
use Prim.Native.Nat.{ℕ, zero, suc, ◌+◌, ◌-◌, ◌*◌, ◌^◌}
use Prim.Native.String.{String}
use mathlib.Core.Bool.{Bool, ◌&&◌, ◌||◌}
use mathlib.Core.List.{List, [], ◌∷◌}
use mathlib.Core.Option.{Option, none, some}
use beamline_caf.Base.Tests.{leb, ltb, ◌==◌, if◌then◌else◌}
use beamline_caf.Base.Int.{ℤ, pos, negsuc}
use beamline_caf.Base.Text.{codes, to_string, ◌+ˢ◌}

abbrev is_digit : ℕ → Bool
is_digit c = leb b'0' c && leb c b'9'

abbrev is_space : ℕ → Bool
is_space c = c == 32 || leb 9 c && leb c 13

skip_space : List ℕ → List ℕ
skip_space [] = []
skip_space (c ∷ s) = if is_space c then skip_space s else c ∷ s

-- The digits from here on, read after those that `acc` holds.
read_digits : ℕ → List ℕ → ℕ
read_digits acc [] = acc
read_digits acc (c ∷ s) =
    let more = read_digits (acc * 10 + (c - b'0')) s in if is_digit c then more else acc

-- `none` is `std::invalid_argument`: no digit where the number should begin.
read_number : List ℕ → Option ℕ
unfolding read_digits
read_number [] = none
read_number (c ∷ s) = if is_digit c then some (read_digits 0 (c ∷ s)) else none

abbrev negative : Option ℕ → Option ℤ
negative none = none
negative (some zero) = some (pos 0)
negative (some (suc n)) = some (negsuc n)

abbrev positive : Option ℕ → Option ℤ
positive none = none
positive (some n) = some (pos n)

read_signed : List ℕ → Option ℤ
unfolding read_number
read_signed [] = none
read_signed (c ∷ s) =
    if c == b'-'
    then negative (read_number s)
    else if c == b'+'
    then positive (read_number s)
    else positive (read_number (c ∷ s))

-- `none` is `std::out_of_range` too.
abbrev within : ℕ → Option ℤ → Option ℤ
within w none = none
within w (some (pos n)) = if ltb n (2 ^ (w - 1)) then some (pos n) else none
within w (some (negsuc n)) = if ltb n (2 ^ (w - 1)) then some (negsuc n) else none

unfoldable pub stoi : String → Option ℤ
unfolding skip_space read_signed
stoi s = within 32 (read_signed (skip_space (codes s)))

unfoldable pub stoll : String → Option ℤ
unfolding skip_space read_signed
stoll s = within 64 (read_signed (skip_space (codes s)))

unfoldable pub int_to_string : ℤ → String
unfolding to_string
int_to_string (pos n) = to_string n
int_to_string (negsuc n) = "-" +ˢ to_string (suc n)
