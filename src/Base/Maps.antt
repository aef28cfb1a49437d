-- ===== src/Base/Maps.antt =====
-- `std::unordered_map<std::string, std::string>` as an association list. The order of iteration,
-- which the standard leaves open, is that of the list.
use Prim.Native.String.{String}
use mathlib.Core.Path.{◌≡◌, refl}
use mathlib.Core.Bool.{Bool, true, false}
use mathlib.Core.List.{List, [], ◌∷◌}
use mathlib.Core.Option.{Option, none, some}
use native.Mathlib.Omega.{arith}
use text.Mathlib.TextEquality.{eq_iff}
use beamline_caf.Base.Tests.{if◌then◌else◌}
use beamline_caf.Base.Text.{◌=ˢ◌}

abbrev pub Dict : Type 0
Dict = List (String × String)

module _ {ℓ} {V : Type ℓ} where
  -- `find`.
  unfoldable pub lookup : String → List (String × V) → Option V
  lookup key [] = none
  lookup key ((first, held) ∷ entries) = if first =ˢ key then some held else lookup key entries

  -- `m[key] = value`.
  unfoldable pub insert : String → V → List (String × V) → List (String × V)
  insert key value [] = (key, value) ∷ []
  insert key value ((first, held) ∷ entries) =
      if first =ˢ key then (first, value) ∷ entries else (first, held) ∷ insert key value entries

  -- A key reads back what was last written to it, and every other key what it held.
  pub lookup-insert :
      (written asked : String) (value : V) (entries : List (String × V))
      → lookup asked (insert written value entries)
        ≡ (if written =ˢ asked then some value else lookup asked entries)
  unfolding lookup insert
  lookup-insert written asked value [] = refl
  lookup-insert written asked value ((first, held) ∷ entries) = ground (
    arith,
    lookup-insert written asked value entries,
    eq_iff first written,
    eq_iff first asked,
    eq_iff written asked,
  )

-- `count(k)` as a condition.
abbrev pub is_some {ℓ} : {A : Type ℓ} → Option A → Bool
is_some none = false
is_some (some a) = true

-- The value at `k`, or a default: `count(k) ? at(k) : d`.
abbrev pub or_else {ℓ} : {A : Type ℓ} → Option A → A → A
or_else none d = d
or_else (some a) d = a
