-- ===== src/Pool/Lines.antt =====
-- processor/src/worker_actor.cpp, `PoolActorState`: what the pool logs.
use beamline_caf.Base.{ℕ, ℤ, int_to_string, to_string, [], ◌∷◌, String, none, some, lookup}
use beamline_caf.Core.{StepRequest, ResourceClass, empty_context}
use beamline_caf.Observability.Log.{Line, Level, info, warn, plain_line}
use beamline_caf.Observability.Metrics.{resource_name}

-- `request.inputs.count(key) ? request.inputs.at(key) : ""`.
unfoldable pub input_or_blank : String → StepRequest → String
input_or_blank key request = elim (lookup key request.inputs) [ none ↦ "" | some v ↦ v ]

abbrev pub full_line : ResourceClass → ℕ → ℤ → StepRequest → Line
full_line resource_class depth max_queue_size request = record {
  level = warn;
  message = "Queue full - rejecting request";
  ids = record empty_context {
    tenant_id = input_or_blank "tenant_id" request;
    run_id = input_or_blank "run_id" request;
    flow_id = input_or_blank "flow_id" request;
    step_id = input_or_blank "step_id" request;
  };
  context =
      ("resource_class", resource_name resource_class)
      ∷ ("queue_depth", to_string depth)
      ∷ ("max_queue_size", int_to_string max_queue_size)
      ∷ ("reason", "queue_full")
      ∷ [];
}

-- The type of the request stands where a step id is expected, here and in the next line.
abbrev pub started_line : ResourceClass → StepRequest → Line
started_line resource_class request = record {
  level = info;
  message = "Step execution started";
  ids = record empty_context { step_id = request.type };
  context = ("resource_class", resource_name resource_class) ∷ [];
}

abbrev pub processing_line : ResourceClass → ℕ → StepRequest → Line
processing_line resource_class depth request = record {
  level = info;
  message = "Processing queued request";
  ids = record empty_context { step_id = request.type };
  context =
      ("resource_class", resource_name resource_class) ∷ ("queue_depth", to_string depth) ∷ [];
}

-- The type of the request stands where a tenant is expected.
abbrev pub unknown_line : StepRequest → Line
unknown_line request = record (plain_line Level.error "Unknown block type") {
  ids = record empty_context { tenant_id = request.type };
}

abbrev pub cancel_line : String → Line
cancel_line step_id = record (plain_line info "Step cancellation requested") {
  ids = record empty_context { step_id = step_id };
}
