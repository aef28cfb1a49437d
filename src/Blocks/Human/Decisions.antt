-- ===== src/Blocks/Human/Decisions.antt =====
-- How a request for an approval ends.
use beamline_caf.Base.{
  leb, ◌^◌, ◌<◌, ℕ, suc, ◌≡◌, refl, ap, ◌∙◌, ◌⊎◌, inl, inr, ℤ, ◌≤ℤ◌, Bool, true, false, [], ◌∷◌,
  String, insert, lookup, stoll, Option, none, some, arith, Bool-cases, if◌then◌else◌,
}
use beamline_caf.Core.{
  BlockContext, ResultMetadata, StepRequest, StepResult, ok, timeout, success, timeout_result,
  metadata_from_context,
}
use beamline_caf.Blocks.{
  BlockState, Outcome, validate_required_inputs, get_input_or_default, Attempt, done,
}
use beamline_caf.Blocks.Human.{
  Clock, in_ms, sandbox_approval, waited, execute_human, approve, generate_approval_id,
}

-- In the sandbox the answer is yes; elsewhere it is pending, unless the wait took longer than the
-- limit.
abbrev pub IsDecision : BlockContext → ℤ → StepResult → Type 0
IsDecision ctx limit_ms r =
    ((ctx.sandbox ≡ true) × (r.status ≡ ok) × (lookup "decision" r.outputs ≡ some "approved"))
    ⊎ ((ctx.sandbox ≡ false)
        × (r.latency_ms ≤ℤ limit_ms)
        × (r.status ≡ ok)
        × (lookup "status" r.outputs ≡ some "pending"))
    ⊎ ((ctx.sandbox ≡ false) × ¬ (r.latency_ms ≤ℤ limit_ms) × (r.status ≡ timeout))

module _ (c : Clock) where
  open c use {World, now, wall_clock}

  sandbox_approval-IsDecision :
      (ctx : BlockContext) (limit_ms : ℤ) (approval_id : String) (metadata : ResultMetadata)
      (start_time : ℕ) (s : BlockState) (w : World)
      → ctx.sandbox ≡ true
      → IsDecision ctx limit_ms (sandbox_approval c approval_id metadata start_time s w).0
  unfolding sandbox_approval success lookup insert
  sandbox_approval-IsDecision ctx limit_ms approval_id metadata start_time s w on =
      inl (on, refl, refl)

  waited-IsDecision :
      (ctx : BlockContext) (approval_id : String) (timeout_seconds limit_ms : ℤ)
      (metadata : ResultMetadata) (start_time : ℕ) (s : BlockState) (w : World)
      → ctx.sandbox ≡ false
      → IsDecision ctx limit_ms
          (waited c approval_id timeout_seconds limit_ms metadata start_time s w).0
  unfolding waited success timeout_result lookup insert
  waited-IsDecision ctx approval_id timeout_seconds limit_ms metadata start_time s w off =
      ground (arith, off)

  -- A complete request whose time limit is a number, small enough to be counted in milliseconds, ends
  -- with a decision, as long as the counter behind the approval ids is below 2^31 - 1, and it moves on by one.
  pub execute_human-IsDecision :
      (req : StepRequest) (ctx : BlockContext) (s : BlockState) (counter : ℕ) (w : World)
      {seconds limit_ms : ℤ}
      → validate_required_inputs req ("approval_type" ∷ "description" ∷ []) ≡ true
      → stoll (get_input_or_default req "timeout_seconds" "3600") ≡ some seconds
      → in_ms seconds ≡ some limit_ms
      → counter < 2147483647
      → (r : StepResult) × (s' : BlockState) × (v : World) × (execute_human c req ctx s counter w
          ≡ some (done (r, s', v), suc counter))
        × IsDecision ctx limit_ms r
  execute_human-IsDecision req ctx s counter w {seconds} {limit_ms} valid number small fits =
      elim (Bool-cases ctx.sandbox) [
        | inl on ↦ (
          approval.0,
          approval.1,
          approval.2,
          begun ∙ ap chosen on,
          sandbox_approval-IsDecision ctx limit_ms approval_id metadata start_time s w2 on,
        )
        | inr off ↦ (
          wait.0,
          wait.1,
          wait.2,
          begun ∙ ap chosen off ∙ ap limited small,
          waited-IsDecision ctx approval_id seconds limit_ms metadata start_time s w2 off,
        )
      ]
    where
      metadata : ResultMetadata
      metadata = metadata_from_context ctx

      start_time : ℕ
      start_time = (now w).0

      generated : String × ℕ × World
      generated = generate_approval_id c counter (now w).1

      approval_id : String
      approval_id = generated.0

      w2 : World
      w2 = (wall_clock generated.2).1

      approval : Outcome World
      approval = sandbox_approval c approval_id metadata start_time s w2

      wait : Outcome World
      wait = waited c approval_id seconds limit_ms metadata start_time s w2

      limited : Option ℤ → Option (Attempt (Outcome World) × ℕ)
      limited o = elim o [
        | none ↦ none
        | some l ↦
            some (done (waited c approval_id seconds l metadata start_time s w2), suc counter)
      ]

      chosen : Bool → Option (Attempt (Outcome World) × ℕ)
      chosen b = if b then some (done approval, suc counter) else limited (in_ms seconds)

      tested :
          execute_human c req ctx s counter w
          ≡ approve c ctx
              (stoll (get_input_or_default req "timeout_seconds" "3600"))
              metadata
              start_time
              s
              counter
              (now w).1
      tested = unfold execute_human in rw valid refl

      counts : leb (2 ^ 31) (suc counter) ≡ false
      counts = ground arith

      begun : execute_human c req ctx s counter w ≡ chosen ctx.sandbox
      begun =
          tested
          ∙ ap (λ o. approve c ctx o metadata start_time s counter (now w).1) number
          ∙ ap (λ b. if b then none else chosen ctx.sandbox) counts
