-- ===== src/Tests/Data.antt =====
-- The inputs of the tests.
use beamline_caf.Base.{ℕ, suc, pos, negsuc, false, [], ◌∷◌, none, some, ◌+◌}
use beamline_caf.Core.{
  BlockContext, StepRequest, StepResult, ErrorCode, cpu, Expected, empty_metadata, error_result,
  WorkerConfig,
}
use beamline_caf.Flags.{Env}
use beamline_caf.Pool.{Pending, PoolActorState}
use beamline_caf.Executor.{Host}

abbrev pub no_flags : Env
no_flags name = none

abbrev pub all_flags : Env
all_flags name = some "true"

abbrev pub context : BlockContext
context = record {
  tenant_id = "tenant";
  trace_id = "";
  run_id = "run";
  flow_id = "flow";
  step_id = "step";
  sandbox = false;
  rbac_scopes = [];
}

abbrev pub get_request : StepRequest
get_request = record {
  type = "fs.blob_get";
  inputs = ("path", "/tmp/beamline/a") ∷ ("step_id", "s1") ∷ [];
  resources = [];
  timeout_ms = pos 1000;
  retry_count = pos 2;
  guardrails = [];
}

abbrev pub put_request : StepRequest
put_request = record {
  type = "fs.blob_put";
  inputs = ("path", "/tmp/beamline/a") ∷ ("content", "text") ∷ ("overwrite", "true") ∷ [];
  resources = [];
  timeout_ms = pos 1000;
  retry_count = pos 0;
  guardrails = [];
}

abbrev pub http_request : StepRequest
http_request = record {
  type = "http.request";
  inputs = ("url", "http://host/") ∷ ("method", "PUT") ∷ ("body", "data") ∷ [];
  resources = ("class", "io") ∷ [];
  timeout_ms = pos 8000;
  retry_count = pos 1;
  guardrails = [];
}

abbrev pub unknown_request : StepRequest
unknown_request = record get_request { type = "no.such" }

abbrev pub negative_request : StepRequest
negative_request = record get_request { retry_count = negsuc 0 }

-- A block that always gives the same result, on a world that counts the calls and the time.
abbrev pub constant_host : Expected StepResult → Host
constant_host result = record {
  World = ℕ × ℕ;
  now = λ w. (w.1, (w.0, suc w.1));
  sleep_for = λ delay w. (w.0, delay + w.1);
  execute = λ req w. (result, (suc w.0, w.1));
}

abbrev pub denied : StepResult
denied = error_result ErrorCode.permission_denied "no" empty_metadata (pos 1)

abbrev pub waiting : Pending
waiting = record { requester = 1; request = get_request }

abbrev pub waiting_put : Pending
waiting_put = record { requester = 2; request = put_request }

abbrev pub busy_pool : PoolActorState
busy_pool = record {
  resource_class = cpu;
  max_concurrency = pos 1;
  current_load = pos 1;
  pending_requests = waiting ∷ waiting_put ∷ [];
  max_queue_size = pos 0;
  spawned = [];
  logged = [];
}

abbrev pub worker_config : WorkerConfig
worker_config = record {
  cpu_pool_size = pos 4;
  gpu_pool_size = pos 1;
  io_pool_size = pos 8;
  max_memory_per_tenant_mb = pos 1024;
  max_cpu_time_per_tenant_ms = pos 3600000;
  sandbox_mode = false;
  nats_url = "";
  prometheus_endpoint = "";
}
