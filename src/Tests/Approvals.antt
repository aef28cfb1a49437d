-- ===== src/Tests/Approvals.antt =====
-- An approval that is asked for.
use beamline_caf.Base.{arith, ℕ, suc, ◌+◌, ◌≡◌, refl, pos, ◌∷◌, [], some, true, stoll, lookup}
use beamline_caf.Core.{StepRequest, StepResult}
use beamline_caf.Blocks.{BlockState, done, validate_required_inputs, get_input_or_default}
use beamline_caf.Blocks.Human.{Clock, execute_human, new_human_block}
use beamline_caf.Blocks.Human.Decisions.{IsDecision, execute_human-IsDecision}
use beamline_caf.Tests.Data.{context, get_request}

-- A clock that counts the milliseconds slept.
abbrev clock : Clock
clock = record { World = ℕ; now = λ w. (w, w); wall_clock = λ w. (w, w); sleep_for = λ t w. t + w }

abbrev approval_request : StepRequest
approval_request = record get_request {
  type = "human.approval";
  inputs = ("approval_type", "deploy") ∷ ("description", "d") ∷ ("timeout_seconds", "60") ∷ [];
}

approval_tests :
    (validate_required_inputs approval_request ("approval_type" ∷ "description" ∷ []) ≡ true)
    × (stoll (get_input_or_default approval_request "timeout_seconds" "3600") ≡ some (pos 60))
unfolding validate_required_inputs lookup stoll
approval_tests = (refl, refl)

execute_human-IsDecision_example :
    (r : StepResult) × (s' : BlockState) × (v : ℕ) × (execute_human clock approval_request context
        new_human_block 4 0
      ≡ some (done (r, s', v), suc 4))
    × IsDecision context (pos 60000) r
execute_human-IsDecision_example =
    execute_human-IsDecision clock approval_request context new_human_block 4 0 approval_tests.0
      approval_tests.1 refl (omega arith)
