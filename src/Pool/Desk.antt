-- ===== src/Pool/Desk.antt =====
-- What a pool promises, without loads, sizes of queues and messages: requests wait in a line, start
-- from its front while places are free, and end.
use beamline_caf.Base.{
  ℕ, suc, ◌+◌, ◌<◌, ◌≡◌, Bool, false, not, List, [], ◌∷◌, ◌++◌, String, ◌=ˢ◌, none, some, lookup,
  length, keep, ◌⊎◌,
}
use mathlib.Mathlib.Logic.Relation.{ReflTransGenᴰ}
use beamline_caf.Core.{StepRequest}

pub record Desk : Type 0 where
  pub waiting : List StepRequest
  pub started : List StepRequest
  pub ended : ℕ

-- The request carries an own step id.
unfoldable pub is_other : String → StepRequest → Bool
is_other step_id r = elim (lookup "step_id" r.inputs) [
  | none ↦ false
  | some own_id ↦ not (own_id =ˢ step_id)
]

-- One move of a desk with `places` places.
pub data Move (places : ℕ) (s : Desk) : Desk → Type 0 where
  accept : (r : StepRequest) → Move places s (record s { waiting = s.waiting ++ r ∷ [] })
  begin :
      (r : StepRequest) (rest : List StepRequest)
      → s.waiting ≡ r ∷ rest
      → length s.started < s.ended + places
      → Move places s (record s { waiting = rest; started = s.started ++ r ∷ [] })
  end_one : s.ended < length s.started → Move places s (record s { ended = suc s.ended })
  withdraw :
      (step_id : String) → Move places s (record s { waiting = keep (is_other step_id) s.waiting })

abbrev pub Moves : ℕ → Desk → Desk → Type 0
Moves places = ReflTransGenᴰ (Move places)

abbrev pub empty_desk : Desk
empty_desk = record { waiting = []; started = []; ended = 0 }

-- Nobody waits beside a free place.
abbrev pub IsSaturated : ℕ → Desk → Type 0
IsSaturated places s = (s.waiting ≡ []) ⊎ (s.ended + places ≡ length s.started)
