-- ===== src/Observability/Timestamp.antt =====
-- processor/src/observability.cpp, `get_iso8601_timestamp`: the time in a logged line, as code points.
pub mod Digits
pub mod Sorting
use beamline_caf.Base.{
  ℕ, zero, suc, ◌+◌, ◌-◌, ◌/◌, ◌%◌, ◌==◌, ltb, ℤ, pos, negsuc, add_ℤ, List, [], ◌∷◌, ◌++◌, length,
  if◌then◌else◌,
}

-- `std::tm`, as far as it is read.
pub record Tm : Type 0 where
  pub tm_year : ℤ
  pub tm_mon : ℤ
  pub tm_mday : ℤ
  pub tm_hour : ℤ
  pub tm_min : ℤ
  pub tm_sec : ℤ

unfoldable pub zeros : ℕ → List ℕ
zeros zero = []
zeros (suc n) = b'0' ∷ zeros n

-- The decimal digits of `n`; a number has at most as many as its value plus one.
unfoldable pub digits_within : ℕ → ℕ → List ℕ
digits_within zero n = []
digits_within (suc fuel) n =
    let more : List ℕ = digits_within fuel (n / 10) ++ (b'0' + n % 10) ∷ [] in
    if ltb n 10 then (b'0' + n) ∷ [] else more

-- `%0wd`: the sign counts for the width, and a number that is too long is not cut.
unfoldable pub padded : ℕ → ℤ → List ℕ
unfolding zeros digits_within
padded w (pos n) =
    let digits : List ℕ = digits_within (suc n) n in zeros (w - length digits) ++ digits
padded w (negsuc n) =
    let digits : List ℕ = digits_within (suc (suc n)) (suc n) in
    b'-' ∷ (zeros (w - 1 - length digits) ++ digits)

-- What `snprintf` leaves in a buffer of one byte more.
unfoldable pub cut_to : ℕ → List ℕ → List ℕ
cut_to zero text = []
cut_to (suc n) [] = []
cut_to (suc n) (c ∷ text) = c ∷ cut_to n text

-- `% 1000000`, with the sign of the dividend.
unfoldable pub microseconds_of : ℤ → ℤ
microseconds_of (pos n) = pos (n % 1000000)
microseconds_of (negsuc n) =
    let rest : ℕ = suc n % 1000000 in if rest == 0 then pos 0 else negsuc (rest - 1)

unfoldable pub format_timestamp : Tm → ℤ → List ℕ
unfolding padded
format_timestamp tm microseconds =
    padded 4 (add_ℤ tm.tm_year (pos 1900))
    ++ (b'-' ∷ padded 2 (add_ℤ tm.tm_mon (pos 1)))
    ++ (b'-' ∷ padded 2 tm.tm_mday)
    ++ (b'T' ∷ padded 2 tm.tm_hour)
    ++ (b':' ∷ padded 2 tm.tm_min)
    ++ (b':' ∷ padded 2 tm.tm_sec)
    ++ (b'.' ∷ padded 6 microseconds)
    ++ b'Z' ∷ []

-- `now` is the time in microseconds since the epoch, and `gmtime` the calendar of the C library.
unfoldable pub get_iso8601_timestamp : (ℤ → Tm) → ℤ → List ℕ
unfolding format_timestamp cut_to microseconds_of
get_iso8601_timestamp gmtime now = cut_to 31 (format_timestamp (gmtime now) (microseconds_of now))
