-- ===== src/Observability/Timestamp/Sorting.antt =====
-- Timestamps as texts, and the order of their times.
use Prim.Native.Nat.Ordering.{lt, eq, gt}
use Prim.Native.Nat.{Ordering}
use beamline_caf.Base.{
  ℕ, ◌+◌, ◌/◌, ◌%◌, ◌≤◌, ◌<◌, ◌≡◌, refl, sym, ◌∙◌, ap, ℤ, pos, add_ℤ, List, [], ◌∷◌, ◌++◌, length,
  length-append, arith, subst,
}
use beamline_caf.Observability.Timestamp.{
  Tm, microseconds_of, format_timestamp, get_iso8601_timestamp,
}
use beamline_caf.Observability.Timestamp.Digits.{
  compare_with, and_then, order, fixed, order-append, length-fixed, order-fixed, padded-fixed,
  then_number, length-then_number, cut_to-whole, Compares, then_number-Compares,
}

-- The broken-down time of a `std::tm` that is not before 1900.
pub record Moment : Type 0 where
  pub years : ℕ
  pub month : ℕ
  pub day : ℕ
  pub hour : ℕ
  pub minute : ℕ
  pub second : ℕ

abbrev pub tm_of : Moment → Tm
tm_of m = record {
  tm_year = pos m.years;
  tm_mon = pos m.month;
  tm_mday = pos m.day;
  tm_hour = pos m.hour;
  tm_min = pos m.minute;
  tm_sec = pos m.second;
}

abbrev pub fields : Moment → List ℕ
fields m = m.years ∷ m.month ∷ m.day ∷ m.hour ∷ m.minute ∷ m.second ∷ []

-- The calendar shows the time `now`, up to the year 9999, as the moment.
pub record Shows (gmtime : ℤ → Tm) (now : ℕ) (m : Moment) : Type 0 where
  pub shown : gmtime (pos now) ≡ tm_of m
  pub year_fits : m.years ≤ 8099
  pub month_fits : m.month ≤ 11
  pub day_fits : m.day ≤ 31
  pub hour_fits : m.hour ≤ 23
  pub minute_fits : m.minute ≤ 59
  pub second_fits : m.second ≤ 60

abbrev text_of_second : Moment → List ℕ
text_of_second m =
    (then_number
      (then_number
        (then_number
          (then_number (then_number (fixed 4 (m.years + 1900)) b'-' 2 (m.month + 1)) b'-' 2 m.day)
          b'T' 2 m.hour)
        b':' 2 m.minute)
      b':' 2 m.second)

abbrev text_before_zone : Moment → ℕ → List ℕ
text_before_zone m microseconds = then_number (text_of_second m) b'.' 6 microseconds

abbrev text_of : Moment → ℕ → List ℕ
text_of m microseconds = text_before_zone m microseconds ++ b'Z' ∷ []

add_pos : (a b : ℕ) → add_ℤ (pos a) (pos b) ≡ pos (a + b)
add_pos a b = ground arith

format_timestamp-Moment :
    (gmtime : ℤ → Tm) (now us : ℕ) (m : Moment)
    → Shows gmtime now m
    → us < 1000000
    → format_timestamp (gmtime (pos now)) (pos us) ≡ text_of m us
unfolding format_timestamp
format_timestamp-Moment gmtime now us m v fits =
    rw
      (
        v.shown,
        add_pos m.years 1900,
        add_pos m.month 1,
        padded-fixed 3 (m.years + 1900) (omega (arith, v.year_fits)),
        padded-fixed 1 (m.month + 1) (omega (arith, v.month_fits)),
        padded-fixed 1 m.day (omega (arith, v.day_fits)),
        padded-fixed 1 m.hour (omega (arith, v.hour_fits)),
        padded-fixed 1 m.minute (omega (arith, v.minute_fits)),
        padded-fixed 1 m.second (omega (arith, v.second_fits)),
        padded-fixed 5 us (omega (arith, fits)),
      )
      refl

length-text_of : (m : Moment) (us : ℕ) → length (text_of m us) ≡ 27
length-text_of m us =
    rw
      (
        length-append (text_before_zone m us) (b'Z' ∷ []),
        length-then_number (text_of_second m) b'.' 6 us,
      )
      (omega (
        arith,
        length-fixed 4 (m.years + 1900),
        length-then_number (fixed 4 (m.years + 1900)) b'-' 2 (m.month + 1),
        length-then_number _ b'-' 2 m.day,
        length-then_number _ b'T' 2 m.hour,
        length-then_number _ b':' 2 m.minute,
        length-then_number _ b':' 2 m.second,
      ))

and_then_assoc : (o p q : Ordering) → and_then (and_then o p) q ≡ and_then o (and_then p q)
and_then_assoc eq p q = refl
and_then_assoc lt p q = refl
and_then_assoc gt p q = refl

and_then-eq : (o : Ordering) → and_then o eq ≡ o
and_then-eq eq = refl
and_then-eq lt = refl
and_then-eq gt = refl

order-fields :
    (m n : Moment) (us vs : ℕ)
    → and_then
        (and_then
          (and_then
            (and_then
              (and_then
                (and_then (compare_with m.years n.years) (compare_with m.month n.month))
                (compare_with m.day n.day))
              (compare_with m.hour n.hour))
            (compare_with m.minute n.minute))
          (compare_with m.second n.second))
        (compare_with us vs)
      ≡ and_then (order (fields m) (fields n)) (compare_with us vs)
unfolding order
order-fields m n us vs =
    ap (λ o. and_then o (compare_with us vs)) (simp (and_then-eq, and_then_assoc))

years-eq : (a b : ℕ) → compare_with (a + 1900) (b + 1900) ≡ compare_with a b
years-eq a b = ground arith

months-eq : (a b : ℕ) → compare_with (a + 1) (b + 1) ≡ compare_with a b
months-eq a b = ground arith

text_of-Compares :
    (gmtime : ℤ → Tm) (a b us vs : ℕ) (m n : Moment)
    → Shows gmtime a m
    → Shows gmtime b n
    → us < 1000000
    → vs < 1000000
    → Compares
        (text_before_zone m us)
        (text_before_zone n vs)
        (and_then (order (fields m) (fields n)) (compare_with us vs))
text_of-Compares gmtime a b us vs m n v u fits gits =
    subst (Compares (text_before_zone m us) (text_before_zone n vs))
      (rw (years-eq m.years n.years, months-eq m.month n.month) (order-fields m n us vs))
      (then_number-Compares b'.' 6 us vs fits gits (
        then_number-Compares b':' 2 m.second n.second (omega (arith, v.second_fits))
          (omega (arith, u.second_fits))
          (then_number-Compares b':' 2 m.minute n.minute (omega (arith, v.minute_fits))
            (omega (arith, u.minute_fits))
            (then_number-Compares b'T' 2 m.hour n.hour (omega (arith, v.hour_fits))
              (omega (arith, u.hour_fits))
              (then_number-Compares b'-' 2 m.day n.day (omega (arith, v.day_fits))
                (omega (arith, u.day_fits))
                (then_number-Compares b'-' 2 (m.month + 1) (n.month + 1)
                  (omega (arith, v.month_fits)) (omega (arith, u.month_fits))
                  (record {
                    same_length =
                        length-fixed 4 (m.years + 1900) ∙ sym (length-fixed 4 (n.years + 1900));
                    ordered =
                        order-fixed 4 (m.years + 1900) (n.years + 1900) (omega (arith, v.year_fits))
                          (omega (arith, u.year_fits));
                  })))))))

-- The timestamp of a moment is whole.
stamp-text_of :
    (gmtime : ℤ → Tm) (now : ℕ) (m : Moment)
    → Shows gmtime now m
    → get_iso8601_timestamp gmtime (pos now) ≡ text_of m (now % 1000000)
unfolding get_iso8601_timestamp microseconds_of
stamp-text_of gmtime now m v =
    rw (format_timestamp-Moment gmtime now (now % 1000000) m v (omega arith)) (
      cut_to-whole 31 (text_of m (now % 1000000)) (omega (arith, length-text_of m (now % 1000000))))

seconds_then_microseconds :
    (a b : ℕ)
    → and_then (compare_with (a / 1000000) (b / 1000000)) (compare_with (a % 1000000) (b % 1000000))
      ≡ compare_with a b
seconds_then_microseconds a b = ground arith

order_zone :
    {s t : List ℕ} {o : Ordering} → Compares s t o → order (s ++ b'Z' ∷ []) (t ++ b'Z' ∷ []) ≡ o
unfolding order
order_zone {s} {t} {o} v =
    order-append s t (b'Z' ∷ []) (b'Z' ∷ []) v.same_length ∙ rw v.ordered (and_then-eq o)

-- Two times from 1970 to 9999 that the calendar shows as moments of the same order have timestamps of
-- 27 characters, which the buffer holds, and these sort as texts as the times do, to the microsecond.
pub order-get_iso8601_timestamp :
    (gmtime : ℤ → Tm) (a b : ℕ) (m n : Moment)
    → Shows gmtime a m
    → Shows gmtime b n
    → order (fields m) (fields n) ≡ compare_with (a / 1000000) (b / 1000000)
    → (length (get_iso8601_timestamp gmtime (pos a)) ≡ 27)
      × (order (get_iso8601_timestamp gmtime (pos a)) (get_iso8601_timestamp gmtime (pos b))
          ≡ compare_with a b)
order-get_iso8601_timestamp gmtime a b m n v u keeps =
    rw (stamp-text_of gmtime a m v, stamp-text_of gmtime b n u)
      (
        length-text_of m (a % 1000000),
        order_zone (
              text_of-Compares gmtime a b (a % 1000000) (b % 1000000) m n v u (omega arith)
                (omega arith))
            ∙ rw keeps (seconds_then_microseconds a b),
      )
