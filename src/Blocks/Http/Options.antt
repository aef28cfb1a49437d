-- ===== src/Blocks/Http/Options.antt =====
-- What the block asks curl for, and what it makes of the pieces that come back.
use beamline_caf.Base.{
  ℕ, ◌≡◌, sym, ap, ◌∙◌, ℤ, pos, ◌≤ℤ◌, List, ◌++◌, String, ◌∷◌, [], ◌+ˢ◌, codes, codes-append,
  append-nil, append_assoc, some,
}
use beamline_caf.Blocks.Http.{CurlOption, timeout_ms, collect, buffer_or_empty}

-- A total timeout is positive and no longer than the step's.
abbrev pub IsWithin : ℤ → CurlOption → Type 0
IsWithin step_timeout_ms (timeout_ms t) = (pos 1 ≤ℤ t) × (t ≤ℤ step_timeout_ms)
IsWithin step_timeout_ms _ = Unit

abbrev pub all_codes : List String → List ℕ
all_codes [] = []
all_codes (piece ∷ pieces) = codes piece ++ all_codes pieces

-- However the transfer is cut into pieces, the buffer holds them all in their order.
pub collect-all_codes :
    (pieces : List String) (buffer : String)
    → codes (buffer_or_empty (collect pieces (some buffer))) ≡ codes buffer ++ all_codes pieces
unfolding collect
collect-all_codes [] buffer = sym (append-nil (codes buffer))
collect-all_codes (piece ∷ pieces) buffer =
    collect-all_codes pieces (buffer +ˢ piece)
    ∙ ap (λ l. l ++ all_codes pieces) (codes-append buffer piece)
    ∙ append_assoc (codes buffer) (codes piece) (all_codes pieces)
