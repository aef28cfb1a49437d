-- ===== src/Timeouts.antt =====
-- processor/include/beamline/worker/timeout_enforcement.hpp.
use beamline_caf.Base.{ℤ, pos, Bool, true, false, ◌||◌, String, ◌=ˢ◌, if◌then◌else◌, add_ℤ}
use beamline_caf.Flags.{Env, is_complete_timeout_enabled}

-- `operation` runs; `in_time` is what `wait_for` says of it. The answer is the result and whether
-- the operation counts as completed.
unfoldable pub execute_with_timeout {ℓ} :
    {A : Type ℓ} → Env → (operation : A) → (in_time : Bool) → (timeout_result : A) → A × Bool
execute_with_timeout env operation in_time timeout_result =
    if is_complete_timeout_enabled env
    then if in_time then (operation, true) else (timeout_result, false)
    else (operation, true)

-- 0 means no timeout.
unfoldable pub get_fs_timeout_ms : Env → String → ℤ
get_fs_timeout_ms env operation_type =
    if is_complete_timeout_enabled env
    then if operation_type =ˢ "read" || operation_type =ˢ "fs.blob_get"
      then pos 5000
      else if operation_type =ˢ "write" || operation_type =ˢ "fs.blob_put"
      then pos 10000
      else if operation_type =ˢ "delete"
      then pos 3000
      else pos 5000
    else pos 0

-- 0 means that the total timeout applies.
unfoldable pub get_http_connection_timeout_ms : Env → ℤ
get_http_connection_timeout_ms env = if is_complete_timeout_enabled env then pos 5000 else pos 0

unfoldable pub get_http_total_timeout_ms : Env → ℤ → ℤ
unfolding get_http_connection_timeout_ms
get_http_total_timeout_ms env request_timeout_ms =
    if is_complete_timeout_enabled env
    then add_ℤ (get_http_connection_timeout_ms env) request_timeout_ms
    else request_timeout_ms
