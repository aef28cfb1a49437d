-- ===== src/Runtime/Types.antt =====
-- processor/include/worker/types.hpp and block_executor.hpp: the data of the second worker, and
-- what a block of it offers.
use beamline_caf.Base.{
  ℕ, ◌-◌, ◌%◌, ◌^◌, ltb, ℤ, pos, negsuc, Bool, List, [], String, Dict, if◌then◌else◌,
}
use beamline_caf.Blocks.{M}

pub data StatusCode : Type 0 where
  ok error timeout canceled : StatusCode

pub data ResourceClass : Type 0 where
  cpu gpu io : ResourceClass

pub record RetryPolicy : Type 0 where
  pub max_retries : ℤ
  pub backoff_ms : ℤ

pub record Resources : Type 0 where
  pub cls : ResourceClass
  pub memory_mb : ℤ
  pub concurrency : ℤ

pub record BlockContext : Type 0 where
  pub tenant_id : String
  pub trace_id : String
  pub flow_id : String
  pub step_id : String
  pub sandbox : Bool
  pub rbac_scopes : List String

pub record StepRequest : Type 0 where
  pub type : String
  pub inputs : Dict
  pub resources : Resources
  pub timeout_ms : ℤ
  pub retry : RetryPolicy
  pub guardrails : Dict
  pub ctx : BlockContext

pub record StepResult : Type 0 where
  pub status : StatusCode
  pub outputs : Dict
  pub error : String
  pub latency_ms : ℤ
  pub retries_used : ℤ

-- `StepResult r{}`.
abbrev pub zero_result : StepResult
zero_result = record {
  status = ok;
  outputs = [];
  error = "";
  latency_ms = pos 0;
  retries_used = pos 0;
}

-- Three counters of 64 bits, without a sign.
pub record BlockMetrics : Type 0 where
  pub success_count : ℕ
  pub error_count : ℕ
  pub latency_total_ms : ℕ

abbrev pub zero_metrics : BlockMetrics
zero_metrics = record { success_count = 0; error_count = 0; latency_total_ms = 0 }

-- `static_cast<int>` of a count: the number modulo 2^32, read with a sign.
unfoldable pub to_int : ℕ → ℤ
to_int n =
    let low : ℕ = n % 2 ^ 32 in if ltb low (2 ^ 31) then pos low else negsuc (2 ^ 32 - 1 - low)

-- The interface of a block; `execute` may throw.
pub record BlockExecutor (World : Type 0) : Type 0 where
  pub init : BlockContext → StatusCode
  pub execute : StepRequest → M World StepResult
  pub cancel : BlockContext → StatusCode
  pub metrics : BlockMetrics
