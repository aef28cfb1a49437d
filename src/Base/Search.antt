-- ===== src/Base/Search.antt =====
-- What the searches in a text find.
use Prim.Native.Char.{code}
use Prim.Native.Nat.{ℕ}
use Prim.Native.String.{String}
use mathlib.Core.Path.{◌≡◌, refl, sym, ap, ◌∙◌}
use mathlib.Core.Logic.{◌↔◌, inl, inr}
use mathlib.Core.Bool.{true, false, false≢true}
use mathlib.Core.List.{List, [], ◌∷◌, ◌++◌}
use native.Mathlib.Omega.{arith}
use text.Mathlib.TextLemmas.{nil-append, cons-append}
use beamline_caf.Base.Tests.{Bool-cases}
use beamline_caf.Base.Text.{codes, has_prefix, has_infix, find_is_zero, ◌+ˢ◌}

pub codes-append : (s t : String) → codes (s +ˢ t) ≡ codes s ++ codes t
codes-append String.[] t = ap codes (nil-append t)
codes-append (String.◌∷◌ c s) t =
    ap codes (cons-append c s t) ∙ ap (λ r. code c ∷ r) (codes-append s t)

has_prefix-append : (p r : List ℕ) → has_prefix (p ++ r) p ≡ true
unfolding has_prefix
has_prefix-append [] [] = refl
has_prefix-append [] (c ∷ r) = refl
has_prefix-append (c ∷ p) r = ground (arith, has_prefix-append p r)

has_prefix-split : (s p : List ℕ) → has_prefix s p ≡ true → (r : List ℕ) × (s ≡ p ++ r)
unfolding has_prefix
has_prefix-split s [] h = (s, refl)
has_prefix-split [] (c ∷ p) h = cc
has_prefix-split (d ∷ s) (c ∷ p) h =
    let (r, e) = has_prefix-split s p (ground arith) in (r, ground arith)

-- A search finds a text at 0 exactly when it is a prefix.
pub find_is_zero_iff :
    (s p : String) → (find_is_zero s p ≡ true) ↔ ((r : List ℕ) × (codes s ≡ codes p ++ r))
unfolding find_is_zero
find_is_zero_iff s p =
    (has_prefix-split (codes s) (codes p), λ h. rw h.1 (has_prefix-append (codes p) h.0))

pub find_is_zero-append : (p r : String) → find_is_zero (p +ˢ r) p ≡ true
find_is_zero-append p r = (find_is_zero_iff (p +ˢ r) p).1 (codes r, codes-append p r)

-- The text begins with, or holds, another one.
abbrev pub BeginsWith : String → String → Type 0
BeginsWith s p = (r : List ℕ) × (codes s ≡ codes p ++ r)

abbrev pub Holds : List ℕ → List ℕ → Type 0
Holds s p = (before : List ℕ) × (after : List ℕ) × (s ≡ before ++ (p ++ after))

has_infix-append : (before p after : List ℕ) → has_infix (before ++ (p ++ after)) p ≡ true
unfolding has_infix
has_infix-append [] p after = from_prefix (p ++ after) p (has_prefix-append p after)
  where
    from_prefix : (s p : List ℕ) → has_prefix s p ≡ true → has_infix s p ≡ true
    from_prefix [] p h = h
    from_prefix (d ∷ s) p h = rw h refl
has_infix-append (c ∷ before) p after = ground (arith, has_infix-append before p after)

has_infix-split : (s p : List ℕ) → has_infix s p ≡ true → Holds s p
unfolding has_infix
has_infix-split [] p h = let (r, e) = has_prefix-split [] p h in ([], r, e)
has_infix-split (d ∷ s) p h = elim (Bool-cases (has_prefix (d ∷ s) p)) [
  | inl here ↦ let (r, e) = has_prefix-split (d ∷ s) p here in ([], r, e)
  | inr later ↦
      let (before, after, e) = has_infix-split s p (ground arith) in
      (d ∷ before, after, ap (λ t. d ∷ t) e)
]

-- A search finds a text exactly when it stands there.
pub has_infix_iff : (s p : List ℕ) → (has_infix s p ≡ true) ↔ Holds s p
has_infix_iff s p = (has_infix-split s p, λ h. rw h.2 (has_infix-append h.0 p h.1))

pub not-find_is_zero_iff : (s p : String) → (find_is_zero s p ≡ false) ↔ (¬ BeginsWith s p)
not-find_is_zero_iff s p = (
  λ h b. false≢true (sym h ∙ (find_is_zero_iff s p).1 b),
  λ n. elim (Bool-cases (find_is_zero s p)) [
    | inl e ↦ absurd (n ((find_is_zero_iff s p).0 e))
    | inr e ↦ e
  ],
)

pub not-has_infix_iff : (s p : List ℕ) → (has_infix s p ≡ false) ↔ (¬ Holds s p)
not-has_infix_iff s p = (
  λ h b. false≢true (sym h ∙ (has_infix_iff s p).1 b),
  λ n. elim (Bool-cases (has_infix s p)) [
    | inl e ↦ absurd (n ((has_infix_iff s p).0 e))
    | inr e ↦ e
  ],
)
