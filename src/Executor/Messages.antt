-- ===== src/Executor/Messages.antt =====
-- processor/src/worker_actor.cpp, `ExecutorActorState`: the messages of an executor and the labels
-- of a step. The calls of the metrics library are commented out in the source, so that a setter builds
-- its labels and drops them: what stands here is the labels that are built, and nothing is recorded.
use beamline_caf.Base.{
  ℕ, Bool, true, false, not, List, [], ◌∷◌, ◌++◌, String, ◌=ˢ◌, Dict, Option, none, some, to_string,
  int_to_string, if◌then◌else◌,
}
use beamline_caf.Core.{
  StepRequest, StepResult, StepStatus, ok, error, timeout, cancelled, is_error, code_number,
  BlockMetrics, empty_context, Expected, value, failure,
}
use beamline_caf.Flags.{Env, is_observability_metrics_enabled}
use beamline_caf.Observability.Log.{Line, Level, info, plain_line}
use beamline_caf.Observability.Metrics.{
  record_step_execution, record_step_execution_duration, record_step_error,
}
use beamline_caf.Executor.{Host, execute_with_retry}

-- Labels that a setter builds, by the name of the family whose commented call would take them.
pub record StepLabels : Type 0 where
  pub family : String
  pub labels : Dict

unfoldable pub built : String → Option Dict → List StepLabels
built family none = []
built family (some labels) = record { family = family; labels = labels } ∷ []

unfoldable pub execution_status : StepStatus → String
execution_status ok = "success"
execution_status error = "error"
execution_status timeout = "timeout"
execution_status cancelled = "cancelled"

-- `record_step_metrics`; the duration is handed on to a setter that does not read it.
unfoldable pub record_step_metrics : Env → StepRequest → StepResult → List StepLabels
unfolding built execution_status
record_step_metrics env req result =
    let m = result.metadata in
    let status : String = execution_status result.status in
    let errors : List StepLabels =
      if is_error result
      then built "worker_step_errors_total" (
          record_step_error env req.type (to_string (code_number result.error_code)) m.tenant_id
            m.run_id m.flow_id m.step_id)
      else [] in
    if not (is_observability_metrics_enabled env)
    then []
    else built "worker_step_executions_total"
        (record_step_execution env req.type status m.tenant_id m.run_id m.flow_id m.step_id)
      ++ built "worker_step_execution_duration_seconds" (
          record_step_execution_duration env req.type status m.tenant_id m.run_id m.flow_id
            m.step_id)
      ++ errors

-- What a message makes an executor do: the lines that it logs, the labels that are built and dropped, how often
-- it sends "done" to the pool of the message, and whether it quits.
pub record Reaction : Type 0 where
  pub lines : List Line
  pub dropped_labels : List StepLabels
  pub done_sent : ℕ
  pub quits : Bool

abbrev pub no_reaction : Reaction
no_reaction = record { lines = []; dropped_labels = []; done_sent = 0; quits = false }

-- A step has ended: its labels are built, the pool is told, and the executor quits.
abbrev pub after_step : Env → StepRequest → StepResult → Reaction
after_step env request result = record {
  lines = [];
  dropped_labels = record_step_metrics env request result;
  done_sent = 1;
  quits = true;
}

-- The handler of requests. `execute_with_retry` never returns an error value; `none` is its undefined
-- arithmetic.
module _ (h : Host) where
  open h use {World}

  unfoldable pub on_execute : Env → String → StepRequest → World → Option (Reaction × World)
  unfolding record_step_metrics
  on_execute env atom request w =
      let ended : Option (Reaction × World) = elim (execute_with_retry h env request w) [
        | none ↦ none
        | some (result, v) ↦ some (after_step env request result, v)
      ] in
      if not (atom =ˢ "execute") then some (no_reaction, w) else ended

-- The handler of cancellations, over the answer of the block. The loggers take the tenant first: a
-- failure is logged with its code as the tenant and the step as the run.
unfoldable pub on_cancel : (String → Expected (Unit {0})) → String → String → Reaction
on_cancel cancel atom step_id =
    let line : Line = elim (cancel step_id) [
      | value _ ↦ record (plain_line info "Step canceled") {
        ids = record empty_context { step_id = step_id };
      }
      | failure code ↦ record (plain_line Level.error "Failed to cancel step") {
        ids = record empty_context { tenant_id = code; run_id = step_id };
      }
    ] in
    if not (atom =ˢ "cancel") then no_reaction else record no_reaction { lines = line ∷ [] }

-- The handler that logs the counters of the block.
unfoldable pub on_metrics : BlockMetrics → String → Reaction
on_metrics metrics atom =
    let line : Line = record (plain_line info "Executor metrics") {
      context =
          ("latency_ms", int_to_string metrics.latency_ms)
          ∷ ("success_count", int_to_string metrics.success_count)
          ∷ ("error_count", int_to_string metrics.error_count)
          ∷ [];
    } in
    if not (atom =ˢ "metrics") then no_reaction else record no_reaction { lines = line ∷ [] }
