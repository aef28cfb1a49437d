-- ===== src/Executor/Metrics.antt =====
-- The labels that are built for a step, and that an executor that has run reports to its pool.
use beamline_caf.Base.{
  ℕ, ◌≤◌, ◌≡◌, refl, pos, true, [], ◌∷◌, String, lookup, some, length, All, Bool-cases,
  if◌then◌else◌, inl, inr,
}
use beamline_caf.Core.{StepRequest, StepResult, is_error}
use beamline_caf.Flags.{Env, is_observability_metrics_enabled}
use beamline_caf.Observability.Metrics.{
  HasIdLabels, with_ids-HasIdLabels, with_ids-first, with_ids, record_step_execution,
  record_step_execution_duration, record_step_error,
}
use beamline_caf.Executor.{Host}
use beamline_caf.Executor.Rule.{IsKept, execute_with_retry-Returns}
use beamline_caf.Executor.Messages.{
  StepLabels, built, record_step_metrics, Reaction, after_step, on_execute,
}

-- The labels of a step: its type, and exactly those ids of its result that are not empty.
abbrev pub HasStepLabels : StepRequest → StepResult → StepLabels → Type 0
HasStepLabels req result m =
    (lookup "step_type" m.labels ≡ some req.type)
    × HasIdLabels result.metadata.tenant_id result.metadata.run_id result.metadata.flow_id
        result.metadata.step_id m.labels

abbrev labelled : StepRequest → StepResult → String → String → StepLabels
labelled req result other_name other = record {
  family = other_name;
  labels =
      with_ids result.metadata.tenant_id result.metadata.run_id result.metadata.flow_id
        result.metadata.step_id (("step_type", req.type) ∷ (other_name, other) ∷ []);
}

execution-HasStepLabels :
    (req : StepRequest) (result : StepResult) (status : String)
    → HasStepLabels req result (labelled req result "execution_status" status)
execution-HasStepLabels req result status = (
  with_ids-first req.type "execution_status" status _ _ _ _,
  (with_ids-HasIdLabels req.type status _ _ _ _).0,
)

error-HasStepLabels :
    (req : StepRequest) (result : StepResult) (code : String)
    → HasStepLabels req result (labelled req result "error_code" code)
error-HasStepLabels req result code = (
  with_ids-first req.type "error_code" code _ _ _ _,
  (with_ids-HasIdLabels req.type code _ _ _ _).1,
)

-- Without the flag no labels are built for a step; with it those of an execution, of a duration and,
-- for a result with status error only, of an error, each with the type and the ids of the step.
pub record_step_metrics-HasStepLabels :
    (env : Env) (req : StepRequest) (result : StepResult)
    → All (HasStepLabels req result) (record_step_metrics env req result)
      × (length (record_step_metrics env req result)
          ≡ (if is_observability_metrics_enabled env then if is_error result then 3 else 2 else 0))
unfolding record_step_metrics built record_step_execution record_step_execution_duration
    record_step_error
record_step_metrics-HasStepLabels env req result =
    elim (Bool-cases (is_observability_metrics_enabled env)) [
      | inr off ↦ rw off (tt, refl)
      | inl on ↦ elim (Bool-cases (is_error result)) [
        | inl bad ↦
            rw (on, bad)
              (
                (
                  execution-HasStepLabels req result _,
                  (execution-HasStepLabels req result _, (error-HasStepLabels req result _, tt)),
                ),
                refl,
              )
        | inr good ↦
            rw (on, good)
              (
                (execution-HasStepLabels req result _, (execution-HasStepLabels req result _, tt)),
                refl,
              )
      ]
    ]

-- A step with 0 to 56 retries ends, whatever its block does, and then the executor sends "done" to
-- its pool, once, and quits.
pub on_execute-done :
    (h : Host) (env : Env) (req : StepRequest) (m : ℕ) (w : h.World)
    → req.retry_count ≡ pos m
    → m ≤ 56
    → (r : Reaction) × (v : h.World) × (on_execute h env "execute" req w ≡ some (r, v))
      × (r.done_sent ≡ 1)
      × (r.quits ≡ true)
unfolding on_execute
on_execute-done h env req m w here few =
    let (r, v, e, _) =
      execute_with_retry-Returns h env req (λ _ _ _ _. Unit) (λ _ _ _ _. Unit) (λ _ _. Unit)
        anything m w here few tt in
    (after_step env req r, v, rw e refl, refl, refl)
  where
    anything : IsKept h env req (λ _ _ _ _. Unit) (λ _ _ _ _. Unit) (λ _ _. Unit)
    anything = record {
      clock = λ _ _ _ _ p. p;
      clock_after = λ _ _ _ _ p. p;
      cut_before = λ _ _ _ _ p. p;
      cut_after = λ _ _ _ _ p. p;
      finished = λ _ _ _ _ _ p e. tt;
      failed = λ _ _ _ _ _ _ p e. tt;
      slept = λ _ _ _ _ _ le f. tt;
      spent = λ _ _ _ _ e f. tt;
    }
