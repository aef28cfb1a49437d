-- ===== src/Base/Text.antt =====
-- `std::string`: the native texts, with the operations of the standard library that the source
-- uses. A search or a change of case goes over the code points; every needle of the source is
-- ASCII, where code points and bytes agree.
use Prim.Native.Nat.{ℕ, zero, suc, ◌+◌, ◌-◌, ◌/◌, ◌%◌}
use Prim.Native.Char.{code}
use Prim.Native.String
use Prim.Native.String.{String}
use mathlib.Core.Bool.{Bool, true, false, ◌&&◌, ◌||◌}
use mathlib.Core.List.{List, [], ◌∷◌}
use text.Mathlib.Text.{◌==◌ as text_eq}
use beamline_caf.Base.Tests.{ltb, leb, ◌==◌, if◌then◌else◌}

infix 50 ◌=ˢ◌
abbrev pub ◌=ˢ◌ : String → String → Bool
s =ˢ t = text_eq s t

infixr 65 ◌+ˢ◌
abbrev pub ◌+ˢ◌ : String → String → String
s +ˢ t = String.◌++◌ s t

-- `empty()`.
abbrev pub is_blank : String → Bool
is_blank String.[] = true
is_blank (String.◌∷◌ c s) = false

abbrev pub codes : String → List ℕ
codes String.[] = []
codes (String.◌∷◌ c s) = code c ∷ codes s

-- `s.find(p) == 0`, on code points.
unfoldable pub has_prefix : List ℕ → List ℕ → Bool
has_prefix s [] = true
has_prefix [] (c ∷ p) = false
has_prefix (d ∷ s) (c ∷ p) = (d == c) && has_prefix s p

-- `s.find(p) != std::string::npos`.
unfoldable pub has_infix : List ℕ → List ℕ → Bool
unfolding has_prefix
has_infix [] p = has_prefix [] p
has_infix (d ∷ s) p = has_prefix (d ∷ s) p || has_infix s p

unfoldable pub find_is_zero : String → String → Bool
unfolding has_prefix
find_is_zero s p = has_prefix (codes s) (codes p)

unfoldable pub contains : String → String → Bool
unfolding has_infix
contains s p = has_infix (codes s) (codes p)

-- `::tolower` and `::toupper` in the "C" locale.
unfoldable pub to_lower : ℕ → ℕ
to_lower c = if leb b'A' c && leb c b'Z' then c + 32 else c

unfoldable pub to_upper : ℕ → ℕ
to_upper c = if leb b'a' c && leb c b'z' then c - 32 else c

-- Equality of two texts that are held as code points.
unfoldable pub same_codes : List ℕ → List ℕ → Bool
same_codes [] [] = true
same_codes [] (d ∷ t) = false
same_codes (c ∷ s) [] = false
same_codes (c ∷ s) (d ∷ t) = (c == d) && same_codes s t

digit : ℕ → String
digit n =
    if n == 0
    then "0"
    else if n == 1
    then "1"
    else if n == 2
    then "2"
    else if n == 3
    then "3"
    else if n == 4
    then "4"
    else if n == 5
    then "5"
    else if n == 6
    then "6"
    else if n == 7
    then "7"
    else if n == 8
    then "8"
    else "9"

-- The decimal digits of `n`; a number has at most as many as its value plus one.
decimal : ℕ → ℕ → String
decimal zero n = ""
decimal (suc fuel) n =
    let more = decimal fuel (n / 10) +ˢ digit (n % 10) in if ltb n 10 then digit n else more

-- `std::to_string` of a natural number.
unfoldable pub to_string : ℕ → String
unfolding decimal digit
to_string n = decimal (suc n) n

-- `size()`: the bytes of the text.
abbrev pub byte_length : String → ℕ
byte_length s = String.len s
