-- ===== src/Observability/Timestamp/Digits.antt =====
-- Numbers of fixed width in a text, and the order of such texts.
use Prim.Native.Nat.Ordering.{lt, eq, gt}
use Prim.Native.Nat.{Ordering}
use beamline_caf.Base.{
  ℕ, zero, suc, ◌+◌, ◌-◌, ◌*◌, ◌/◌, ◌%◌, ◌==◌, ◌≤◌, ◌<◌, ◌≡◌, refl, sym, ◌∙◌, ap, ltb, pos, List,
  [], ◌∷◌, ◌++◌, length, length-append, arith, append_assoc, if◌then◌else◌, Bool-cases, inl, inr,
}
use beamline_caf.Observability.Timestamp.{zeros, digits_within, padded, cut_to}

abbrev pub compare_with : ℕ → ℕ → Ordering
compare_with a b = if ltb a b then lt else if a == b then eq else gt

abbrev pub and_then : Ordering → Ordering → Ordering
and_then eq o = o
and_then lt o = lt
and_then gt o = gt

-- The order of texts, and of lists of numbers.
unfoldable pub order : List ℕ → List ℕ → Ordering
order [] [] = eq
order [] (d ∷ t) = lt
order (c ∷ s) [] = gt
order (c ∷ s) (d ∷ t) = and_then (compare_with c d) (order s t)

pub order-append :
    (a b s t : List ℕ)
    → length a ≡ length b
    → order (a ++ s) (b ++ t) ≡ and_then (order a b) (order s t)
unfolding order
order-append [] [] s t e = refl
order-append [] (d ∷ b) s t e = absurd (omega arith)
order-append (c ∷ a) [] s t e = absurd (omega arith)
order-append (c ∷ a) (d ∷ b) s t e = ground (arith, order-append a b s t)

-- The last `w` digits of a number.
unfoldable pub fixed : ℕ → ℕ → List ℕ
fixed zero n = []
fixed (suc w) n = fixed w (n / 10) ++ (b'0' + n % 10) ∷ []

abbrev pub ten_to : ℕ → ℕ
ten_to zero = 1
ten_to (suc w) = 10 * ten_to w

pub length-fixed : (w n : ℕ) → length (fixed w n) ≡ w
unfolding fixed
length-fixed zero n = refl
length-fixed (suc w) n =
    omega (arith, length-fixed w (n / 10), length-append (fixed w (n / 10)) ((b'0' + n % 10) ∷ []))

pub order-fixed :
    (w a b : ℕ) → a < ten_to w → b < ten_to w → order (fixed w a) (fixed w b) ≡ compare_with a b
unfolding fixed order
order-fixed zero a b la lb = ground arith
order-fixed (suc w) a b la lb =
    order-append (fixed w (a / 10)) (fixed w (b / 10)) _ _
      (length-fixed w (a / 10) ∙ sym (length-fixed w (b / 10)))
    ∙ rw (order-fixed w (a / 10) (b / 10) (omega arith) (omega arith)) (ground arith)

zeros_snoc : (w : ℕ) → zeros w ++ b'0' ∷ [] ≡ b'0' ∷ zeros w
unfolding zeros
zeros_snoc zero = refl
zeros_snoc (suc w) = ap (λ l. b'0' ∷ l) (zeros_snoc w)

fixed_zero : (w : ℕ) → fixed w 0 ≡ zeros w
unfolding fixed zeros
fixed_zero zero = refl
fixed_zero (suc w) = ap (λ l. l ++ b'0' ∷ []) (fixed_zero w) ∙ zeros_snoc w

fixed_small : (w n : ℕ) → n < 10 → fixed (suc w) n ≡ zeros w ++ (b'0' + n) ∷ []
unfolding fixed
fixed_small w n small =
    let tenth : n / 10 ≡ 0 = omega arith in
    let last : n % 10 ≡ n = omega arith in rw (tenth, last, fixed_zero w) refl

digits_small : (fuel n : ℕ) → n < 10 → digits_within (suc fuel) n ≡ (b'0' + n) ∷ []
unfolding digits_within
digits_small fuel n small = ground arith

digits_large :
    (fuel n : ℕ)
    → 10 ≤ n
    → digits_within (suc fuel) n ≡ digits_within fuel (n / 10) ++ (b'0' + n % 10) ∷ []
unfolding digits_within
digits_large fuel n large = ground arith

-- The digits, with zeros in front.
abbrev filled : ℕ → List ℕ → List ℕ
filled w digits = zeros (w - length digits) ++ digits

filled-append :
    (w d : ℕ) (digits : List ℕ) → filled (suc w) (digits ++ d ∷ []) ≡ filled w digits ++ d ∷ []
filled-append w d digits =
    let same : suc w - length (digits ++ d ∷ []) ≡ w - length digits =
      omega (arith, length-append digits (d ∷ [])) in
    rw same (sym (append_assoc (zeros (w - length digits)) digits (d ∷ [])))

one_digit : (w n : ℕ) → suc w - length ((b'0' + n) ∷ []) ≡ w
one_digit w n = omega arith

fixed-suc : (w n : ℕ) → fixed (suc w) n ≡ fixed w (n / 10) ++ (b'0' + n % 10) ∷ []
unfolding fixed
fixed-suc w n = refl

filled-digits :
    (fuel n w : ℕ)
    → n < fuel
    → n < ten_to (suc w)
    → filled (suc w) (digits_within fuel n) ≡ fixed (suc w) n
filled-digits zero n w enough fits = absurd (omega arith)
filled-digits (suc fuel) n w enough fits = elim (Bool-cases (ltb n 10)) [
  | inl small ↦
      rw (digits_small fuel n (ground arith), one_digit w n) (sym (fixed_small w n (ground arith)))
  | inr large ↦ filled_large fuel n w (ground arith) enough fits (filled-digits fuel)
]
  where
    filled_large :
        (fuel n w : ℕ)
        → 10 ≤ n
        → n < suc fuel
        → n < ten_to (suc w)
        → ((m v : ℕ)
            → m < fuel
            → m < ten_to (suc v)
            → filled (suc v) (digits_within fuel m) ≡ fixed (suc v) m)
        → filled (suc w) (digits_within (suc fuel) n) ≡ fixed (suc w) n
    filled_large fuel n zero large enough fits ih = absurd (omega arith)
    filled_large fuel n (suc w) large enough fits ih =
        rw (digits_large fuel n large, fixed-suc (suc w) n)
          (filled-append (suc w) _ (digits_within fuel (n / 10))
            ∙ ap (λ l. l ++ (b'0' + n % 10) ∷ []) (ih (n / 10) w (omega arith) (omega arith)))

-- Where the number fits the width, the padded digits are its last digits.
pub padded-fixed : (w n : ℕ) → n < ten_to (suc w) → padded (suc w) (pos n) ≡ fixed (suc w) n
unfolding padded
padded-fixed w n fits = filled-digits (suc n) n w (omega arith) fits

-- A text, then a separator and a number of `w` digits.
abbrev pub then_number : List ℕ → ℕ → ℕ → ℕ → List ℕ
then_number text c w n = text ++ (c ∷ fixed w n)

pub length-then_number :
    (text : List ℕ) (c w n : ℕ) → length (then_number text c w n) ≡ length text + suc w
length-then_number text c w n = omega (arith, length-append text (c ∷ fixed w n), length-fixed w n)

pub cut_to-whole : (n : ℕ) (text : List ℕ) → length text ≤ n → cut_to n text ≡ text
unfolding cut_to
cut_to-whole zero [] le = refl
cut_to-whole zero (c ∷ text) le = absurd (omega arith)
cut_to-whole (suc n) [] le = refl
cut_to-whole (suc n) (c ∷ text) le = ap (λ l. c ∷ l) (cut_to-whole n text (omega arith))

-- Two texts of one length, and their order.
pub record Compares (s t : List ℕ) (o : Ordering) : Type 0 where
  pub same_length : length s ≡ length t
  pub ordered : order s t ≡ o

order-cons_same : (c : ℕ) (s t : List ℕ) → order (c ∷ s) (c ∷ t) ≡ order s t
unfolding order
order-cons_same c s t = ground arith

pub then_number-Compares :
    {s t : List ℕ} {o : Ordering} (c w a b : ℕ)
    → a < ten_to w
    → b < ten_to w
    → Compares s t o
    → Compares (then_number s c w a) (then_number t c w b) (and_then o (compare_with a b))
then_number-Compares {s} {t} c w a b la lb v = record {
  same_length =
      omega (arith, length-then_number s c w a, length-then_number t c w b, v.same_length);
  ordered =
      order-append s t (c ∷ fixed w a) (c ∷ fixed w b) v.same_length
      ∙ rw (v.ordered, order-cons_same c (fixed w a) (fixed w b), order-fixed w a b la lb) refl;
}
