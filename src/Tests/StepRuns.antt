-- ===== src/Tests/StepRuns.antt =====
-- Steps with their retries, and what is published of them.
use beamline_caf.Base.{
  ℕ, ◌≡◌, ◌≢◌, refl, ◌≤◌, ◌*◌, ◌^◌, min, ◌⊎◌, inl, inr, true, none, some, arith, to_lower,
  same_codes,
}
use beamline_caf.Core.{StepResult, ok, code_number, value, error_result}
use beamline_caf.Flags.{is_advanced_retry_enabled, get_env_bool, is_truthy}
use beamline_caf.Retry.{default_config, calculate_backoff_delay}
use beamline_caf.Retry.Backoff.{backoff-IsExecutorConfig}
use beamline_caf.Retry.Classes.{IsPermanent}
use beamline_caf.Executor.{Host, execute_with_retry}
use beamline_caf.Executor.Results.{IsAnswer, execute_with_retry-IsAnswer}
use beamline_caf.Executor.Attempts.{
  IsCounter, WithinRetries, execute_with_retry-WithinRetries, execute_with_retry_permanent,
}
use beamline_caf.Tests.Data.{no_flags, all_flags, get_request, constant_host, denied}

advanced : is_advanced_retry_enabled all_flags ≡ true
unfolding is_advanced_retry_enabled get_env_bool is_truthy to_lower same_codes
advanced = refl

abbrev answering : Host
answering = constant_host (value denied)

abbrev calls_of : ℕ × ℕ → ℕ
calls_of w = w.0

answering-IsCounter : IsCounter answering calls_of
answering-IsCounter = record {
  of_now = λ w. refl;
  of_sleep = λ d w. refl;
  of_execute = λ req w. refl;
}

execute_with_retry-WithinRetries_example :
    (r : StepResult) × (w' : ℕ × ℕ) × (execute_with_retry answering no_flags get_request (0, 0)
      ≡ some (r, w'))
    × WithinRetries answering no_flags get_request calls_of answering-IsCounter 2 0 r w'
execute_with_retry-WithinRetries_example =
    execute_with_retry-WithinRetries answering no_flags get_request calls_of answering-IsCounter 2
      (0, 0) refl (omega arith)

denied-IsPermanent : (denied.status ≢ ok) × IsPermanent denied.error_code
unfolding error_result code_number
denied-IsPermanent = ((λ e. cc), inr (inl refl))

execute_with_retry_permanent_example :
    (r : StepResult) × (w' : ℕ × ℕ) × (execute_with_retry answering all_flags get_request (0, 0)
      ≡ some (r, w'))
    × (calls_of w' ≤ 1)
execute_with_retry_permanent_example =
    execute_with_retry_permanent answering all_flags get_request calls_of answering-IsCounter 2
      (0, 0) refl (omega arith) advanced refl
      (λ w. (denied, refl, denied-IsPermanent.0, denied-IsPermanent.1))

execute_with_retry-IsAnswer_example :
    (r : StepResult) × (w' : ℕ × ℕ) × (execute_with_retry answering no_flags get_request (0, 0)
      ≡ some (r, w'))
    × (r.status ≡ ok → IsAnswer answering no_flags get_request r)
execute_with_retry-IsAnswer_example =
    execute_with_retry-IsAnswer answering no_flags get_request 2 (0, 0) refl (omega arith)
      (λ w. (denied, refl))

backoff-IsExecutorConfig_example :
    ((3 ≤ 56)
      × (calculate_backoff_delay all_flags default_config 3 ≡ some (min (100 * 2 ^ 3) 5000)))
    ⊎ ((57 ≤ 3) × (calculate_backoff_delay all_flags default_config 3 ≡ none))
backoff-IsExecutorConfig_example =
    backoff-IsExecutorConfig all_flags default_config 3 advanced (refl, refl)

delay_3 : calculate_backoff_delay no_flags default_config 3 ≡ some 400
unfolding calculate_backoff_delay is_advanced_retry_enabled get_env_bool
delay_3 = refl

delay_5 : calculate_backoff_delay no_flags default_config 5 ≡ some 600
unfolding calculate_backoff_delay is_advanced_retry_enabled get_env_bool
delay_5 = refl
