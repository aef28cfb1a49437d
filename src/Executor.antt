-- ===== src/Executor.antt =====
-- processor/src/worker_actor.cpp, `ExecutorActorState`: one step, with its retries. The clock, the
-- sleep and the block that the step runs are parameters: they are a state `World` and its changes.
pub mod Rule
pub mod Results
pub mod Attempts
pub mod Messages
pub mod Metrics
use beamline_caf.Base.{
  ℕ, zero, suc, ◌+◌, ◌-◌, ℤ, pos, negsuc, leb_ℤ, ltb_ℤ, Bool, true, false, ◌&&◌, String, ◌=ˢ◌,
  Option, none, some, lookup, stoi, if◌then◌else◌, or_else,
}
use beamline_caf.Core.{
  StepRequest, StepResult, StepStatus, ok, error, timeout, ErrorCode, default_result, is_success,
  Expected, value, failure,
}
use beamline_caf.Flags.{Env}
use beamline_caf.Retry.{Config, calculate_backoff_delay, is_retryable, is_budget_exhausted}

-- `now` reads the steady clock, in milliseconds.
pub record Host : Type 1 where
  pub World : Type 0
  pub now : World → ℕ × World
  pub sleep_for : ℕ → World → World
  pub execute : StepRequest → World → Expected StepResult × World

-- The retry policy that `execute_with_retry` sets up.
abbrev pub config_of : StepRequest → Config
config_of req = record {
  base_delay_ms = 100;
  max_delay_ms = 5000;
  total_timeout_ms = req.timeout_ms;
  max_retries = req.retry_count;
}

abbrev pub timed : ℕ → Expected StepResult → Expected StepResult
timed latency_ms (value r) = value (record r { latency_ms = pos latency_ms })
timed latency_ms (failure e) = failure e

-- The status code of the outputs, if the step is an HTTP request that has one; a text that is no
-- number counts as 0.
unfoldable pub status_of : StepRequest → StepResult → ℤ → ℤ
status_of req r http_status_code =
    if req.type =ˢ "http.request"
    then elim (lookup "status_code" r.outputs) [
      | none ↦ http_status_code
      | some text ↦ or_else (stoi text) (pos 0)
    ]
    else http_status_code

-- What an attempt leads to: a result that is returned, or another round with the result and the
-- HTTP status so far.
pub data Verdict : Type 0 where
  finish : StepResult → Verdict
  again : StepResult → ℤ → Verdict

unfoldable pub judge : Env → StepRequest → ℕ → StepResult → ℤ → Expected StepResult → Verdict
unfolding status_of
judge env req attempt final_result http_status_code (value r) =
    let final : StepResult = record r { retries_used = pos attempt } in
    let http : ℤ = status_of req r http_status_code in
    if is_success final
    then finish final
    else if is_retryable env final.error_code http
    then again final http
    else finish final
judge env req attempt final_result http_status_code (failure e) =
    if is_retryable env ErrorCode.network_error (pos 0)
    then again final_result http_status_code
    else finish (record final_result {
      status = error;
      error_code = ErrorCode.execution_failed;
      error_message = "Execution failed and error is non-retryable";
      retries_used = pos attempt;
    })

-- The result when the budget is spent.
abbrev pub cut : String → ℕ → StepResult → StepResult
cut message attempt final_result = record final_result {
  retries_used = pos attempt;
  status = timeout;
  error_code = ErrorCode.cancelled_by_timeout;
  error_message = message;
}

abbrev pub total_exceeded : String
total_exceeded = "Retry budget exhausted: total timeout exceeded"

abbrev pub backoff_exceeds : String
backoff_exceeds = "Retry budget exhausted: backoff delay would exceed total timeout"

-- `for (attempt = 0; attempt <= max_retries; attempt++)`.
abbrev pub rounds : ℤ → ℕ
rounds (pos n) = suc n
rounds (negsuc n) = 0

module _ (h : Host) (env : Env) (req : StepRequest) where
  open h use {World, now, sleep_for, execute}

  unfoldable pub execute_single_attempt : World → Expected StepResult × World
  execute_single_attempt w =
      let (start_time, w1) = now w in
      let (result, w2) = execute req w1 in
      let (end_time, w3) = now w2 in (timed (end_time - start_time) result, w3)

  -- The wait before the next attempt, over the rest of the loop; `start` is `total_start_time`.
  unfoldable pub back_off :
      (StepResult → World → Option (StepResult × World))
      → ℕ
      → ℕ
      → StepResult
      → World
      → Option (StepResult × World)
  back_off continue start attempt final_result w =
      elim (calculate_backoff_delay env (config_of req) attempt) [
        | none ↦ none
        | some backoff_delay ↦
            let (time, w1) = now w in
            if leb_ℤ req.timeout_ms (pos (time + backoff_delay - start))
            then some (cut backoff_exceeds attempt final_result, w1)
            else continue final_result (sleep_for backoff_delay w1)
      ]

  -- The loop with `left` rounds to go; `none` is undefined arithmetic, never a lack of rounds.
  unfoldable pub retry_loop : ℕ → ℕ → ℕ → StepResult → ℤ → World → Option (StepResult × World)
  retry_loop zero start attempt final_result http_status_code w = some (final_result, w)
  retry_loop (suc left) start attempt final_result http_status_code w =
      let (time, w1) = now w in
      elim (is_budget_exhausted env (config_of req) (time - start) attempt) [
        | none ↦ none
        | some true ↦ some (cut total_exceeded attempt final_result, w1)
        | some false ↦
            let (result, w2) = execute_single_attempt w1 in
            elim (judge env req attempt final_result http_status_code result) [
              | finish final ↦ some (final, w2)
              | again final http ↦ elim (ltb_ℤ (pos attempt) req.retry_count) [
                | true ↦
                    back_off (λ f. retry_loop left start (suc attempt) f http) start attempt final
                      w2
                | false ↦ retry_loop left start (suc attempt) final http w2
              ]
            ]
      ]

  unfoldable pub execute_with_retry : World → Option (StepResult × World)
  unfolding retry_loop
  execute_with_retry w =
      let (total_start_time, w1) = now w in
      retry_loop (rounds req.retry_count) total_start_time 0 default_result (pos 0) w1
