-- ===== src/Converter.antt =====
-- processor/include/beamline/worker/result_converter.hpp: a `StepResult` as the flat `ExecResult`
-- that is published.
pub mod Laws
use beamline_caf.Base.{
  ℤ, pos, ltb_ℤ, Bool, true, false, ◌&&◌, not, String, ◌=ˢ◌, ◌+ˢ◌, is_blank, [], Dict, insert,
  int_to_string, if◌then◌else◌,
}
use beamline_caf.Core.{
  StepStatus, ok, error, timeout, cancelled, ErrorCode, StepResult, is_success, is_error,
}

unfoldable pub status_to_string : StepStatus → String
status_to_string ok = "success"
status_to_string error = "error"
status_to_string timeout = "timeout"
status_to_string cancelled = "cancelled"

unfoldable pub string_to_status : String → StepStatus
string_to_status status_str =
    if status_str =ˢ "success"
    then ok
    else if status_str =ˢ "error"
    then error
    else if status_str =ˢ "timeout"
    then timeout
    else if status_str =ˢ "cancelled"
    then cancelled
    else error

unfoldable pub error_code_to_string : ErrorCode → String
error_code_to_string ErrorCode.none = "NONE"
error_code_to_string ErrorCode.invalid_input = "INVALID_INPUT"
error_code_to_string ErrorCode.missing_required_field = "MISSING_REQUIRED_FIELD"
error_code_to_string ErrorCode.invalid_format = "INVALID_FORMAT"
error_code_to_string ErrorCode.execution_failed = "EXECUTION_FAILED"
error_code_to_string ErrorCode.resource_unavailable = "RESOURCE_UNAVAILABLE"
error_code_to_string ErrorCode.permission_denied = "PERMISSION_DENIED"
error_code_to_string ErrorCode.quota_exceeded = "QUOTA_EXCEEDED"
error_code_to_string ErrorCode.network_error = "NETWORK_ERROR"
error_code_to_string ErrorCode.connection_timeout = "CONNECTION_TIMEOUT"
error_code_to_string ErrorCode.http_error = "HTTP_ERROR"
error_code_to_string ErrorCode.internal_error = "INTERNAL_ERROR"
error_code_to_string ErrorCode.system_overload = "SYSTEM_OVERLOAD"
error_code_to_string ErrorCode.cancelled_by_user = "CANCELLED_BY_USER"
error_code_to_string ErrorCode.cancelled_by_timeout = "CANCELLED_BY_TIMEOUT"

-- `if (!v.empty()) m[k] = v;`.
unfoldable pub put_text : String → String → Dict → Dict
put_text k v m = if is_blank v then m else insert k v m

-- The fields that every result has.
unfoldable pub required_fields :
    StepResult → (assignment_id request_id provider_id job_type : String) → Dict
required_fields result assignment_id request_id provider_id job_type =
    let m1 : Dict = insert "version" "1" [] in
    let m2 : Dict = insert "assignment_id" assignment_id m1 in
    let m3 : Dict = insert "request_id" request_id m2 in
    let m4 : Dict = insert "status" (status_to_string result.status) m3 in
    let m5 : Dict = insert "provider_id" provider_id m4 in
    let m6 : Dict = insert "job" ("{\"type\":\"" +ˢ job_type +ˢ "\"}") m5 in
    let m7 : Dict = insert "latency_ms" (int_to_string result.latency_ms) m6 in
    insert "cost" "0.0" m7

-- The correlation fields, and the error of a failed step.
unfoldable pub to_exec_result_json :
    StepResult → (assignment_id request_id provider_id job_type : String) → Dict
to_exec_result_json result assignment_id request_id provider_id job_type =
    let m0 : Dict = required_fields result assignment_id request_id provider_id job_type in
    let m1 : Dict = put_text "trace_id" result.metadata.trace_id m0 in
    let m2 : Dict = put_text "run_id" result.metadata.run_id m1 in
    let m3 : Dict = put_text "tenant_id" result.metadata.tenant_id m2 in
    let m4 : Dict = insert "error_code" (error_code_to_string result.error_code) m3 in
    if is_error result then put_text "error_message" result.error_message m4 else m3

abbrev pub is_none : ErrorCode → Bool
is_none ErrorCode.none = true
is_none _ = false

unfoldable pub validate_result : StepResult → Bool
validate_result result =
    if is_success result && not (is_none result.error_code)
    then false
    else if is_error result && is_none result.error_code
    then false
    else if ltb_ℤ result.latency_ms (pos 0)
    then false
    else true
