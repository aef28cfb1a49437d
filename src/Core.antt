-- ===== src/Core.antt =====
-- processor/include/beamline/worker/core.hpp: the data that the components exchange.
use beamline_caf.Base.{ℕ, ℤ, pos, Bool, true, false, List, [], String, Dict}

pub record BlockContext : Type 0 where
  pub tenant_id : String
  pub trace_id : String
  pub run_id : String
  pub flow_id : String
  pub step_id : String
  pub sandbox : Bool
  pub rbac_scopes : List String

-- A default-constructed context.
abbrev pub empty_context : BlockContext
empty_context = record {
  tenant_id = "";
  trace_id = "";
  run_id = "";
  flow_id = "";
  step_id = "";
  sandbox = false;
  rbac_scopes = [];
}

-- `timeout_ms` is an `int64_t` and `retry_count` an `int32_t`.
pub record StepRequest : Type 0 where
  pub type : String
  pub inputs : Dict
  pub resources : Dict
  pub timeout_ms : ℤ
  pub retry_count : ℤ
  pub guardrails : Dict

pub data StepStatus : Type 0 where
  ok error timeout cancelled : StepStatus

pub data ErrorCode : Type 0 where
  none : ErrorCode
  invalid_input missing_required_field invalid_format : ErrorCode
  execution_failed resource_unavailable permission_denied quota_exceeded : ErrorCode
  network_error connection_timeout http_error : ErrorCode
  internal_error system_overload : ErrorCode
  cancelled_by_user cancelled_by_timeout : ErrorCode

-- `static_cast<int>` of an error code.
unfoldable pub code_number : ErrorCode → ℕ
code_number ErrorCode.none = 0
code_number invalid_input = 1001
code_number missing_required_field = 1002
code_number invalid_format = 1003
code_number execution_failed = 2001
code_number resource_unavailable = 2002
code_number permission_denied = 2003
code_number quota_exceeded = 2004
code_number network_error = 3001
code_number connection_timeout = 3002
code_number http_error = 3003
code_number internal_error = 4001
code_number system_overload = 4002
code_number cancelled_by_user = 5001
code_number cancelled_by_timeout = 5002

pub record ResultMetadata : Type 0 where
  pub trace_id : String
  pub run_id : String
  pub flow_id : String
  pub step_id : String
  pub tenant_id : String

abbrev pub empty_metadata : ResultMetadata
empty_metadata = record { trace_id = ""; run_id = ""; flow_id = ""; step_id = ""; tenant_id = "" }

pub record StepResult : Type 0 where
  pub status : StepStatus
  pub error_code : ErrorCode
  pub outputs : Dict
  pub error_message : String
  pub metadata : ResultMetadata
  pub latency_ms : ℤ
  pub retries_used : ℤ

-- A default-constructed result: its status is `ok`.
abbrev pub default_result : StepResult
default_result = record {
  status = ok;
  error_code = ErrorCode.none;
  outputs = [];
  error_message = "";
  metadata = empty_metadata;
  latency_ms = pos 0;
  retries_used = pos 0;
}

abbrev pub is_success : StepResult → Bool
is_success r = elim (r.status) [ ok ↦ true | _ ↦ false ]

abbrev pub is_error : StepResult → Bool
is_error r = elim (r.status) [ error ↦ true | _ ↦ false ]

abbrev pub is_timeout : StepResult → Bool
is_timeout r = elim (r.status) [ timeout ↦ true | _ ↦ false ]

abbrev pub is_cancelled : StepResult → Bool
is_cancelled r = elim (r.status) [ cancelled ↦ true | _ ↦ false ]

-- The factories.
unfoldable pub success : ResultMetadata → Dict → ℤ → StepResult
success meta outputs latency_ms = record default_result {
  status = ok;
  error_code = ErrorCode.none;
  metadata = meta;
  outputs = outputs;
  latency_ms = latency_ms;
}

unfoldable pub error_result : ErrorCode → String → ResultMetadata → ℤ → StepResult
error_result code message meta latency_ms = record default_result {
  status = error;
  error_code = code;
  error_message = message;
  metadata = meta;
  latency_ms = latency_ms;
}

unfoldable pub timeout_result : ResultMetadata → ℤ → StepResult
timeout_result meta latency_ms = record default_result {
  status = timeout;
  error_code = cancelled_by_timeout;
  metadata = meta;
  latency_ms = latency_ms;
}

unfoldable pub cancelled_result : ResultMetadata → ℤ → StepResult
cancelled_result meta latency_ms = record default_result {
  status = cancelled;
  error_code = cancelled_by_user;
  metadata = meta;
  latency_ms = latency_ms;
}

pub record BlockMetrics : Type 0 where
  pub latency_ms : ℤ
  pub cpu_time_ms : ℤ
  pub mem_bytes : ℤ
  pub success_count : ℤ
  pub error_count : ℤ

pub data ResourceClass : Type 0 where
  cpu gpu io : ResourceClass

unfoldable pub metadata_from_context : BlockContext → ResultMetadata
metadata_from_context ctx = record {
  trace_id = ctx.trace_id;
  run_id = ctx.run_id;
  flow_id = ctx.flow_id;
  step_id = ctx.step_id;
  tenant_id = ctx.tenant_id;
}

pub record WorkerConfig : Type 0 where
  pub cpu_pool_size : ℤ
  pub gpu_pool_size : ℤ
  pub io_pool_size : ℤ
  pub max_memory_per_tenant_mb : ℤ
  pub max_cpu_time_per_tenant_ms : ℤ
  pub sandbox_mode : Bool
  pub nats_url : String
  pub prometheus_endpoint : String

-- `caf::expected<A>`: a value, or the error's code and message.
pub data Expected {ℓ} (A : Type ℓ) : Type ℓ where
  value : A → Expected A
  failure : String → Expected A
