-- ===== src/Observability/Metrics.antt =====
-- processor/src/observability.cpp: the metrics of the worker. The calls of the metrics library are
-- commented out in the source, so that a setter comes to the labels that it makes and drops; `none`
-- is its early return. The values that it is given, a duration or a depth, it does not read.
use beamline_caf.Base.{
  ℤ, ◌≡◌, not, [], ◌∷◌, String, is_blank, Dict, insert, lookup, Option, none, some, arith,
  Bool-cases, if◌then◌else◌,
}
use beamline_caf.Core.{ResourceClass, cpu, gpu, io}
use beamline_caf.Flags.{Env, is_observability_metrics_enabled}

-- A correlation id becomes a label unless it is empty.
abbrev pub with_id : String → String → Dict → Dict
with_id key id labels = if is_blank id then labels else insert key id labels

unfoldable pub with_ids : String → String → String → String → Dict → Dict
unfolding insert
with_ids tenant_id run_id flow_id step_id labels =
    with_id "step_id" step_id
      (with_id "flow_id" flow_id (with_id "run_id" run_id (with_id "tenant_id" tenant_id labels)))

-- Nothing is done without the flag.
abbrev pub when_enabled {ℓ} : {A : Type ℓ} → Env → A → Option A
when_enabled env a = if not (is_observability_metrics_enabled env) then none else some a

unfoldable pub record_step_execution :
    Env → String → String → String → String → String → String → Option Dict
unfolding with_ids
record_step_execution env step_type execution_status tenant_id run_id flow_id step_id =
    when_enabled env (
      with_ids tenant_id run_id flow_id step_id
        (("step_type", step_type) ∷ ("execution_status", execution_status) ∷ []))

unfoldable pub record_step_execution_duration :
    Env → String → String → String → String → String → String → Option Dict
unfolding with_ids
record_step_execution_duration env step_type execution_status tenant_id run_id flow_id step_id =
    when_enabled env (
      with_ids tenant_id run_id flow_id step_id
        (("step_type", step_type) ∷ ("execution_status", execution_status) ∷ []))

unfoldable pub record_step_error :
    Env → String → String → String → String → String → String → Option Dict
unfolding with_ids
record_step_error env step_type error_code tenant_id run_id flow_id step_id = when_enabled env (
    with_ids tenant_id run_id flow_id step_id
      (("step_type", step_type) ∷ ("error_code", error_code) ∷ []))

-- A flow has no step.
unfoldable pub record_flow_execution_duration : Env → String → String → String → Option Dict
record_flow_execution_duration env tenant_id run_id flow_id =
    when_enabled env
      (with_id "flow_id" flow_id (with_id "run_id" run_id (with_id "tenant_id" tenant_id [])))

-- The three gauges: the pool, or the check, that they are about.
unfoldable pub set_queue_depth : Env → String → ℤ → Option String
set_queue_depth env resource_pool depth = when_enabled env resource_pool

unfoldable pub set_active_tasks : Env → String → ℤ → Option String
set_active_tasks env resource_pool count = when_enabled env resource_pool

unfoldable pub set_health_status : Env → String → ℤ → Option String
set_health_status env check status = when_enabled env check

-- The name of a class, as `set_pool_queue_depth` and the pool actor spell it.
abbrev pub resource_name : ResourceClass → String
resource_name cpu = "cpu"
resource_name gpu = "gpu"
resource_name io = "io"

unfoldable pub set_pool_queue_depth : ResourceClass → ℤ → String
set_pool_queue_depth resource_class depth = resource_name resource_class

-- Exactly those of the four ids that are not empty are labels.
abbrev pub HasIdLabels : String → String → String → String → Dict → Type 0
HasIdLabels tenant_id run_id flow_id step_id labels =
    (lookup "tenant_id" labels ≡ (if is_blank tenant_id then none else some tenant_id))
    × (lookup "run_id" labels ≡ (if is_blank run_id then none else some run_id))
    × (lookup "flow_id" labels ≡ (if is_blank flow_id then none else some flow_id))
    × (lookup "step_id" labels ≡ (if is_blank step_id then none else some step_id))

-- The labels of a step: the two that it always has, and the ids.
pub with_ids-HasIdLabels :
    (step_type other tenant_id run_id flow_id step_id : String)
    → HasIdLabels tenant_id run_id flow_id step_id (
        with_ids tenant_id run_id flow_id step_id
          (("step_type", step_type) ∷ ("execution_status", other) ∷ []))
      × HasIdLabels tenant_id run_id flow_id step_id (
          with_ids tenant_id run_id flow_id step_id
            (("step_type", step_type) ∷ ("error_code", other) ∷ []))
unfolding with_ids lookup insert
with_ids-HasIdLabels step_type other tenant_id run_id flow_id step_id = ground (
  arith,
  Bool-cases (is_blank tenant_id),
  Bool-cases (is_blank run_id),
  Bool-cases (is_blank flow_id),
  Bool-cases (is_blank step_id),
)

pub with_ids-first :
    (step_type other_name other tenant_id run_id flow_id step_id : String)
    → lookup "step_type" (
        with_ids tenant_id run_id flow_id step_id
          (("step_type", step_type) ∷ (other_name, other) ∷ []))
      ≡ some step_type
unfolding with_ids lookup insert
with_ids-first step_type other_name other tenant_id run_id flow_id step_id = ground (
  arith,
  Bool-cases (is_blank tenant_id),
  Bool-cases (is_blank run_id),
  Bool-cases (is_blank flow_id),
  Bool-cases (is_blank step_id),
)
