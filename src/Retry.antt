-- ===== src/Retry.antt =====
-- processor/include/beamline/worker/retry_policy.hpp. An `Option` result is `none` where the C++
-- arithmetic overflows, which leaves the behaviour undefined. Delays and elapsed times are naturals:
-- the delays of every configuration in the source are positive, and `steady_clock` never goes back.
pub mod Backoff
pub mod Classes
use beamline_caf.Base.{
  ℕ, ◌+◌, ◌*◌, ◌^◌, ℤ, pos, leb_ℤ, ltb_ℤ, ltb, Bool, true, false, ◌&&◌, Option, none, some, min,
  checked_mul, if◌then◌else◌,
}
use beamline_caf.Core.{ErrorCode}
use beamline_caf.Flags.{Env, is_advanced_retry_enabled}

pub record Config : Type 0 where
  pub base_delay_ms : ℕ
  pub max_delay_ms : ℕ
  pub total_timeout_ms : ℤ
  pub max_retries : ℤ

abbrev pub default_config : Config
default_config = record {
  base_delay_ms = 100;
  max_delay_ms = 5000;
  total_timeout_ms = pos 30000;
  max_retries = pos 3;
}

-- `1LL << attempt`. At 63 the result is the least `int64_t`, whose product with a base above 1
-- overflows; from 64 on the shift itself is undefined.
abbrev pub shift_one : ℕ → Option ℕ
shift_one attempt = if ltb attempt 63 then some (2 ^ attempt) else none

abbrev pub capped : ℕ → Option ℕ → Option ℕ
capped most none = none
capped most (some delay) = some (min delay most)

abbrev pub scaled : ℕ → Option ℕ → Option ℕ
scaled base none = none
scaled base (some factor) = checked_mul 64 base factor

-- Without the flag the delay is a 32-bit product.
unfoldable pub calculate_backoff_delay : Env → Config → ℕ → Option ℕ
calculate_backoff_delay env config attempt =
    if is_advanced_retry_enabled env
    then capped config.max_delay_ms (scaled config.base_delay_ms (shift_one attempt))
    else checked_mul 32 100 (attempt + 1)

-- The switch on the error code.
unfoldable pub is_retryable_code : ErrorCode → Bool
is_retryable_code ErrorCode.network_error = true
is_retryable_code ErrorCode.connection_timeout = true
is_retryable_code ErrorCode.invalid_input = false
is_retryable_code ErrorCode.missing_required_field = false
is_retryable_code ErrorCode.invalid_format = false
is_retryable_code ErrorCode.permission_denied = false
is_retryable_code ErrorCode.execution_failed = true
is_retryable_code ErrorCode.resource_unavailable = true
is_retryable_code ErrorCode.internal_error = true
is_retryable_code ErrorCode.system_overload = true
is_retryable_code ErrorCode.cancelled_by_user = false
is_retryable_code ErrorCode.cancelled_by_timeout = false
is_retryable_code _ = true

unfoldable pub is_retryable : Env → ErrorCode → ℤ → Bool
unfolding is_retryable_code
is_retryable env error_code http_status_code =
    if is_advanced_retry_enabled env
    then if ltb_ℤ (pos 0) http_status_code
      then if leb_ℤ (pos 400) http_status_code && ltb_ℤ http_status_code (pos 500)
        then false
        else if leb_ℤ (pos 500) http_status_code
        then true
        else is_retryable_code error_code
      else is_retryable_code error_code
    else true

abbrev pub reaches : ℤ → ℕ → Option ℕ → Option Bool
reaches total elapsed none = none
reaches total elapsed (some delay) = some (leb_ℤ total (pos (elapsed + delay)))

unfoldable pub is_budget_exhausted : Env → Config → ℕ → ℕ → Option Bool
is_budget_exhausted env config total_elapsed_ms attempt =
    if is_advanced_retry_enabled env
    then if leb_ℤ config.total_timeout_ms (pos total_elapsed_ms)
      then some true
      else reaches config.total_timeout_ms total_elapsed_ms
          (calculate_backoff_delay env config attempt)
    else some false
