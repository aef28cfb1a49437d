-- ===== src/Executor/Results.antt =====
-- What the loop of `execute_with_retry` returns.
use beamline_caf.Base.{ℕ, ◌≤◌, ◌≡◌, refl, ℤ, pos, true, String, some, arith, inl, inr, ◌⊎◌, ◌≢◌}
use beamline_caf.Core.{StepRequest, StepResult, ok, ErrorCode, Expected, value, failure}
use beamline_caf.Flags.{Env}
use beamline_caf.Retry.{is_retryable}
use beamline_caf.Executor.{
  Host, finish, again, judge, timed, status_of, execute_single_attempt, execute_with_retry,
}
use beamline_caf.Executor.Rule.{IsKept, execute_with_retry-Returns}

retries_network_error : (env : Env) → is_retryable env ErrorCode.network_error (pos 0) ≡ true
retries_network_error env = unfold is_retryable in ground arith

-- The result of an attempt, with the number of the attempt.
abbrev pub numbered : ℕ → StepResult → StepResult
numbered n v = record v { retries_used = pos n }

-- The loop returns from a round only with the result of its attempt.
pub judge-finish :
    (env : Env) (req : StepRequest) (n : ℕ) (r : StepResult) (http : ℤ) (e : Expected StepResult)
    (r' : StepResult)
    → judge env req n r http e ≡ finish r'
    → (v : StepResult) × (e ≡ value v) × (r' ≡ numbered n v)
judge-finish env req n r http (value v) r' h = (v, refl, unfold judge in ground arith)
judge-finish env req n r http (failure s) r' h =
    absurd (unfold judge in ground (arith, retries_network_error env))

-- It goes on with a result that is no success, or after a failure with what it had.
pub judge-again :
    (env : Env) (req : StepRequest) (n : ℕ) (r : StepResult) (http : ℤ) (e : Expected StepResult)
    (r' : StepResult) (http' : ℤ)
    → judge env req n r http e ≡ again r' http'
    → ((v : StepResult) × (e ≡ value v)
        × (r' ≡ numbered n v)
        × (r'.status ≢ ok)
        × (http' ≡ status_of req v http)
        × (is_retryable env r'.error_code http' ≡ true))
      ⊎ ((s : String) × (e ≡ failure s) × (r' ≡ r))
judge-again env req n r http (value v) r' http' h = inl (
  v,
  refl,
  unfold judge in ground arith,
  unfold judge in ground arith,
  unfold judge in ground arith,
  unfold judge in ground arith,
)
judge-again env req n r http (failure s) r' http' h = inr (s, refl, unfold judge in ground arith)

module _ (h : Host) (env : Env) (req : StepRequest) where
  open h use {World, now, sleep_for, execute}

  -- An attempt gives the answer of the block with the time that it took.
  pub attempt-value :
      (w : World) (v : StepResult)
      → (execute_single_attempt h env req w).0 ≡ value v
      → (u : StepResult) × ((execute req (now w).1).0 ≡ value u)
        × (v ≡ record u { latency_ms = v.latency_ms })
  unfolding execute_single_attempt
  attempt-value w v e = of_timed _ (execute req (now w).1).0 refl v e
    where
      of_timed :
          (d : ℕ) (given : Expected StepResult)
          → (execute req (now w).1).0 ≡ given
          → (v : StepResult) → timed d given ≡ value v
          → (u : StepResult) × ((execute req (now w).1).0 ≡ value u)
            × (v ≡ record u { latency_ms = v.latency_ms })
      of_timed d (value u) same v e = (u, same, ground arith)
      of_timed d (failure s) same v e = cc

  pub attempt-failure :
      (w : World) (s : String)
      → (execute_single_attempt h env req w).0 ≡ failure s
      → (v : StepResult) → (execute req (now w).1).0 ≢ value v
  unfolding execute_single_attempt
  attempt-failure w s e v f = ground arith

  -- A successful result is the answer of some run of the step, but for its latency and its number.
  abbrev pub IsAnswer : StepResult → Type 0
  IsAnswer r =
      (w : World) × (v : StepResult) × ((execute req w).0 ≡ value v)
      × (v.status ≡ ok)
      × (r ≡ record v { latency_ms = r.latency_ms; retries_used = r.retries_used })

  abbrev pub Answers : Type 0
  Answers = (w : World) → (v : StepResult) × ((execute req w).0 ≡ value v)

  success-IsKept :
      Answers
      → IsKept h env req
          (λ n r http w. Unit)
          (λ n r http w. r.status ≢ ok)
          (λ r w. r.status ≡ ok → IsAnswer r)
  success-IsKept answers = record {
    clock = λ n r http w p. tt;
    clock_after = λ n r http w f. f;
    cut_before = λ n r http w p e. cc;
    cut_after = λ n r http w f e. cc;
    finished = λ n r http w r' p e. finished n r http w r' e;
    failed = λ n r http w r' http' p e. failed n r http w r' http' e;
    slept = λ n d r http w le f. tt;
    spent = λ n r http w e f g. absurd (f g);
  }
    where
      finished :
          (n : ℕ) (r : StepResult) (http : ℤ) (w : World) (r' : StepResult)
          → judge env req n r http (execute_single_attempt h env req w).0 ≡ finish r'
          → r'.status ≡ ok
          → IsAnswer r'
      finished n r http w r' e good =
          let (v, given, same) = judge-finish env req n r http _ r' e in
          let (u, answer, got) = attempt-value w v given in
          ((now w).1, u, answer, ground arith, ground arith)

      failed :
          (n : ℕ) (r : StepResult) (http : ℤ) (w : World) (r' : StepResult) (http' : ℤ)
          → judge env req n r http (execute_single_attempt h env req w).0 ≡ again r' http'
          → r'.status ≢ ok
      failed n r http w r' http' e = elim (judge-again env req n r http _ r' http' e) [
        | inl (v, given, same, bad, _, _) ↦ bad
        | inr (s, given, same) ↦
            absurd (attempt-failure w s given (answers (now w).1).0 (answers (now w).1).1)
      ]

  -- If the block always answers with a result, success is never made up: a step with 0 to 56
  -- retries ends, and a result whose status is `ok` is an answer of the block, but for its latency
  -- and its count of retries.
  pub execute_with_retry-IsAnswer :
      (m : ℕ) (w : World)
      → req.retry_count ≡ pos m
      → m ≤ 56
      → Answers
      → (r : StepResult) × (w' : World) × (execute_with_retry h env req w ≡ some (r, w'))
        × (r.status ≡ ok → IsAnswer r)
  execute_with_retry-IsAnswer m w here few answers =
      execute_with_retry-Returns h env req _ _ _ (success-IsKept answers) m w here few tt
