-- ===== src/Converter/Laws.antt =====
-- What a consumer of the published result can rely on.
use beamline_caf.Base.{
  ℤ, pos, ◌≤ℤ◌, ◌≡◌, refl, ap, ◌∙◌, sym, ◌↔◌, ◌≢◌, true, String, ◌=ˢ◌, ◌+ˢ◌, is_blank, Option, none,
  some, Dict, lookup, int_to_string, arith, if◌then◌else◌,
}
use beamline_caf.Core.{
  StepStatus, ok, error, timeout, cancelled, ErrorCode, StepResult, ResultMetadata, is_error,
  success, error_result, timeout_result, cancelled_result,
}
use beamline_caf.Converter.{
  status_to_string, string_to_status, error_code_to_string, to_exec_result_json, validate_result,
}

-- A status is read back from the text that is published for it.
pub string_to_status-status_to_string : (s : StepStatus) → string_to_status (status_to_string s) ≡ s
unfolding string_to_status status_to_string
string_to_status-status_to_string ok = refl
string_to_status-status_to_string error = refl
string_to_status-status_to_string timeout = refl
string_to_status-status_to_string cancelled = refl

-- The reader of an error code, the inverse of `error_code_to_string`.
read_error_code : String → ErrorCode
read_error_code s =
    if s =ˢ "INVALID_INPUT"
    then ErrorCode.invalid_input
    else if s =ˢ "MISSING_REQUIRED_FIELD"
    then ErrorCode.missing_required_field
    else if s =ˢ "INVALID_FORMAT"
    then ErrorCode.invalid_format
    else if s =ˢ "EXECUTION_FAILED"
    then ErrorCode.execution_failed
    else if s =ˢ "RESOURCE_UNAVAILABLE"
    then ErrorCode.resource_unavailable
    else if s =ˢ "PERMISSION_DENIED"
    then ErrorCode.permission_denied
    else if s =ˢ "QUOTA_EXCEEDED"
    then ErrorCode.quota_exceeded
    else if s =ˢ "NETWORK_ERROR"
    then ErrorCode.network_error
    else if s =ˢ "CONNECTION_TIMEOUT"
    then ErrorCode.connection_timeout
    else if s =ˢ "HTTP_ERROR"
    then ErrorCode.http_error
    else if s =ˢ "INTERNAL_ERROR"
    then ErrorCode.internal_error
    else if s =ˢ "SYSTEM_OVERLOAD"
    then ErrorCode.system_overload
    else if s =ˢ "CANCELLED_BY_USER"
    then ErrorCode.cancelled_by_user
    else if s =ˢ "CANCELLED_BY_TIMEOUT"
    then ErrorCode.cancelled_by_timeout
    else ErrorCode.none

read_error_code-error_code_to_string :
    (c : ErrorCode) → read_error_code (error_code_to_string c) ≡ c
unfolding read_error_code error_code_to_string
read_error_code-error_code_to_string ErrorCode.none = refl
read_error_code-error_code_to_string _ = refl

-- Distinct error codes are published as distinct texts.
pub error_code_to_string_injective :
    (c d : ErrorCode) → error_code_to_string c ≡ error_code_to_string d → c ≡ d
error_code_to_string_injective c d e =
    sym (read_error_code-error_code_to_string c)
    ∙ ap read_error_code e
    ∙ read_error_code-error_code_to_string d

module _ (r : StepResult) (assignment_id request_id provider_id job_type : String) where
  abbrev json : Dict
  json = to_exec_result_json r assignment_id request_id provider_id job_type

  abbrev unless_blank : String → Option String
  unless_blank v = if is_blank v then none else some v

  -- The fields of the published contract, each with what it stands for.
  abbrev pub HasContractFields : Type 0
  HasContractFields =
      (lookup "version" json ≡ some "1")
      × (lookup "assignment_id" json ≡ some assignment_id)
      × (lookup "request_id" json ≡ some request_id)
      × (lookup "provider_id" json ≡ some provider_id)
      × ((s : String) × (lookup "status" json ≡ some s) × (string_to_status s ≡ r.status))
      × (lookup "latency_ms" json ≡ some (int_to_string r.latency_ms))
      × (lookup "cost" json ≡ some "0.0")
      × (lookup "job" json ≡ some ("{\"type\":\"" +ˢ job_type +ˢ "\"}"))
      × (lookup "trace_id" json ≡ unless_blank r.metadata.trace_id)
      × (lookup "run_id" json ≡ unless_blank r.metadata.run_id)
      × (lookup "tenant_id" json ≡ unless_blank r.metadata.tenant_id)
      × (lookup "error_code" json
          ≡ (if is_error r then some (error_code_to_string r.error_code) else none))
      × (lookup "error_message" json ≡ (if is_error r then unless_blank r.error_message else none))

-- A result passes validation exactly when it took no negative time, carries no error code if it
-- succeeded, and carries one if it failed.
pub validate_result_iff :
    (r : StepResult)
    → (validate_result r ≡ true) ↔ (
        (pos 0 ≤ℤ r.latency_ms)
        × (r.status ≡ ok → r.error_code ≡ ErrorCode.none)
        × (r.status ≡ error → r.error_code ≢ ErrorCode.none))
unfolding validate_result
validate_result_iff r = by_status r r.status refl
  where
    by_status :
        (r : StepResult) (s : StepStatus)
        → r.status ≡ s
        → (validate_result r ≡ true) ↔ (
            (pos 0 ≤ℤ r.latency_ms)
            × (r.status ≡ ok → r.error_code ≡ ErrorCode.none)
            × (r.status ≡ error → r.error_code ≢ ErrorCode.none))
    by_status r ok e =
        (λ h. (ground arith, λ _. ground arith, λ f g. ground arith), λ h. ground (arith, h.1 e))
    by_status r error e =
        (λ h. (ground arith, λ f. ground arith, λ f g. ground arith), λ h. ground (arith, h.2 e))
    by_status r timeout e =
        (λ h. (ground arith, λ f. ground arith, λ f g. ground arith), λ h. ground arith)
    by_status r cancelled e =
        (λ h. (ground arith, λ f. ground arith, λ f g. ground arith), λ h. ground arith)

-- The results of the factories pass validation: a success and the two cancellations always, an error
-- exactly when it is given an error code.
pub factories_validate :
    (meta : ResultMetadata) (outputs : Dict) (message : String) (code : ErrorCode) (latency_ms : ℤ)
    → pos 0 ≤ℤ latency_ms
    → (validate_result (success meta outputs latency_ms) ≡ true)
      × (validate_result (timeout_result meta latency_ms) ≡ true)
      × (validate_result (cancelled_result meta latency_ms) ≡ true)
      × ((validate_result (error_result code message meta latency_ms) ≡ true)
          ↔ (code ≢ ErrorCode.none))
unfolding validate_result success timeout_result cancelled_result error_result
factories_validate meta outputs message code latency_ms h =
    (ground arith, ground arith, ground arith, ((λ k e. ground arith), λ k. ground arith))
