-- ===== src/Blocks/Human.antt =====
-- processor/src/blocks/human_block.cpp: the simulated approval. The event that the block builds and
-- drops has no model beyond its reading of the clock.
pub mod Decisions
use beamline_caf.Base.{
  ℕ, suc, ◌-◌, ◌*◌, ◌+◌, ◌<◌, ◌≡◌, refl, ◌⊎◌, inl, inr, ℤ, pos, negsuc, ltb_ℤ, ◌≤ℤ◌, Bool, true,
  false, not, List, [], ◌∷◌, String, ◌+ˢ◌, Dict, insert, lookup, lookup-insert, to_string,
  int_to_string, stoll, ltb, leb, ◌^◌, Option, none, some, arith, Bool-cases, if◌then◌else◌,
  pos_part, neg_part,
}
use beamline_caf.Core.{
  BlockContext, ResultMetadata, StepRequest, StepResult, StepStatus, ok, timeout, ErrorCode,
  success, timeout_result, cpu, metadata_from_context,
}
use beamline_caf.Blocks.{
  BlockState, new_block, fail, record_success, record_error, validate_required_inputs,
  get_input_or_default, Attempt, done, thrown, Outcome,
}

-- The clocks and the sleep of the thread.
pub record Clock : Type 1 where
  pub World : Type 0
  pub now : World → ℕ × World
  pub wall_clock : World → ℕ × World
  pub sleep_for : ℕ → World → World

unfoldable pub new_human_block : BlockState
new_human_block = new_block "human.approval" cpu

-- `timeout_seconds * 1000` in an `int64_t`; `none` is the overflow.
abbrev pub in_ms : ℤ → Option ℤ
in_ms (pos n) = if ltb (n * 1000) (2 ^ 63) then some (pos (n * 1000)) else none
in_ms (negsuc n) = if leb ((n + 1) * 1000) (2 ^ 63) then some (negsuc (n * 1000 + 999)) else none

module _ (c : Clock) where
  open c use {World, now, wall_clock, sleep_for}

  -- The id, the counter after it and the world; the counter is the static `int` of the
  -- method, whose overflow `approve` rules out.
  abbrev pub generate_approval_id : ℕ → World → String × ℕ × World
  generate_approval_id counter w =
      let (time, w') = wall_clock w in
      ("approval_" +ˢ to_string (suc counter) +ˢ "_" +ˢ to_string time, suc counter, w')

  unfoldable pub sandbox_approval : String → ResultMetadata → ℕ → BlockState → World → Outcome World
  sandbox_approval approval_id metadata start_time s w =
      let (end_time, w1) = now w in
      let latency_ms : ℕ = end_time - start_time in
      let (approved_at, w2) = wall_clock w1 in
      let outputs : Dict = insert "reason" "Sandbox approval" (
        insert "approved_at" (to_string approved_at) (
          insert "approved_by" "sandbox_user"
            (insert "decision" "approved" (insert "approval_id" approval_id [])))) in
      (success metadata outputs (pos latency_ms), record_success latency_ms (pos 0) (pos 0) s, w2)

  -- The simulated wait, and its end: a timeout or a pending approval.
  unfoldable pub waited : String → ℤ → ℤ → ResultMetadata → ℕ → BlockState → World → Outcome World
  waited approval_id timeout_seconds limit_ms metadata start_time s w =
      let (end_time, w') = now (sleep_for 100 w) in
      let latency_ms : ℕ = end_time - start_time in
      let outputs : Dict = insert "timeout_seconds" (int_to_string timeout_seconds) (
        insert "message" "Approval request submitted. Waiting for human approval."
          (insert "status" "pending" (insert "approval_id" approval_id []))) in
      if ltb_ℤ limit_ms (pos latency_ms)
      then (timeout_result metadata (pos latency_ms), record_error latency_ms s, w')
      else (
        success metadata outputs (pos latency_ms),
        record_success latency_ms (pos 0) (pos 0) s,
        w',
      )

  -- A number that `std::stoll` does not read is an exception that nothing in the block catches; the
  -- product is taken only when the wait is over.
  abbrev pub approve :
      BlockContext
      → Option ℤ
      → ResultMetadata
      → ℕ
      → BlockState
      → ℕ
      → World
      → Option (Attempt (Outcome World) × ℕ)
  approve ctx none metadata start_time s counter w = some (thrown "stoll", counter)
  approve ctx (some timeout_seconds) metadata start_time s counter w =
      let (approval_id, counter', w1) = generate_approval_id counter w in
      let (requested_at, w2) = wall_clock w1 in
      if leb (2 ^ 31) counter'
      then none
      else if ctx.sandbox
      then some (done (sandbox_approval approval_id metadata start_time s w2), counter')
      else elim (in_ms timeout_seconds) [
        | none ↦ none
        | some limit_ms ↦
            some (
              done (waited approval_id timeout_seconds limit_ms metadata start_time s w2),
              counter',
            )
      ]

  -- `HumanBlockExecutor::execute_impl`; `none` is undefined arithmetic.
  unfoldable pub execute_human :
      StepRequest → BlockContext → BlockState → ℕ → World → Option (Attempt (Outcome World) × ℕ)
  execute_human req ctx s counter w =
      let (start_time, w1) = now w in
      let metadata : ResultMetadata = metadata_from_context ctx in
      if not (validate_required_inputs req ("approval_type" ∷ "description" ∷ []))
      then some (
        done (
            fail now ErrorCode.missing_required_field
              "Missing required inputs: approval_type, description" metadata start_time s w1),
        counter,
      )
      else approve ctx (stoll (get_input_or_default req "timeout_seconds" "3600")) metadata
          start_time s counter w1
