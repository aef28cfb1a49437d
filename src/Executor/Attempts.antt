-- ===== src/Executor/Attempts.antt =====
-- How often a step runs the block.
use beamline_caf.Base.{
  ℕ, suc, ◌+◌, ◌≤◌, ◌≡◌, refl, ap, ◌∙◌, ℤ, pos, negsuc, ◌≤ℤ◌, pos_part, true, false, ◌=ˢ◌, some,
  arith, inl, inr, ◌≢◌,
}
use beamline_caf.Core.{StepRequest, StepResult, ok, default_result, value}
use beamline_caf.Flags.{Env, is_advanced_retry_enabled}
use beamline_caf.Retry.{is_retryable}
use beamline_caf.Retry.Classes.{IsPermanent, is_retryable_iff}
use beamline_caf.Executor.{
  Host, finish, again, judge, status_of, execute_single_attempt, retry_loop, execute_with_retry,
  rounds,
}
use beamline_caf.Executor.Rule.{IsKept, execute_with_retry-Returns}
use beamline_caf.Executor.Results.{judge-finish, judge-again, attempt-value, attempt-failure}

module _ (h : Host) where
  open h use {World, now, sleep_for, execute}

  -- A count of the runs of the block, kept in the world: the clock and the sleep leave it alone.
  pub record IsCounter (calls : World → ℕ) : Type 0 where
    pub of_now : (w : World) → calls (now w).1 ≡ calls w
    pub of_sleep : (d : ℕ) (w : World) → calls (sleep_for d w) ≡ calls w
    pub of_execute : (req : StepRequest) (w : World) → calls (execute req w).1 ≡ suc (calls w)

  module _ (env : Env) (req : StepRequest) (calls : World → ℕ) (c : IsCounter calls) where
    attempt-calls : (w : World) → calls (execute_single_attempt h env req w).1 ≡ suc (calls w)
    unfolding execute_single_attempt
    attempt-calls w =
        c.of_now (execute req (now w).1).1 ∙ c.of_execute req (now w).1 ∙ ap suc (c.of_now w)

    -- Before attempt `n` the block ran `n` times, and the result so far stems from one of them.
    abbrev Before : ℕ → ℕ → ℕ → StepResult → ℤ → World → Type 0
    Before m c0 n r http w =
        (calls w ≡ c0 + n) × (n ≤ m) × (pos 0 ≤ℤ r.retries_used) × (r.retries_used ≤ℤ pos n)

    abbrev After : ℕ → ℕ → ℕ → StepResult → ℤ → World → Type 0
    After m c0 n r http w =
        (calls w ≡ c0 + suc n) × (n ≤ m) × (pos 0 ≤ℤ r.retries_used) × (r.retries_used ≤ℤ pos n)

    -- The number of the result is that of an attempt, and the attempts are at most one more than
    -- the retries.
    abbrev pub WithinRetries : ℕ → ℕ → StepResult → World → Type 0
    WithinRetries m c0 r w =
        (pos 0 ≤ℤ r.retries_used)
        × (r.retries_used ≤ℤ pos m)
        × (c0 + pos_part r.retries_used ≤ calls w)
        × (calls w ≤ c0 + suc m)

    counted-IsKept :
        (m c0 : ℕ)
        → req.retry_count ≡ pos m
        → IsKept h env req (Before m c0) (After m c0) (WithinRetries m c0)
    counted-IsKept m c0 here = record {
      clock = λ n r http w p. (c.of_now w ∙ p.0, p.1, p.2, p.3);
      clock_after = λ n r http w f. (c.of_now w ∙ f.0, f.1, f.2, f.3);
      cut_before = λ n r http w p. omega arith;
      cut_after = λ n r http w f. omega arith;
      finished = λ n r http w r' p e. finished n r http w r' p e;
      failed = λ n r http w r' http' p e. failed n r http w r' http' p e;
      slept = λ n d r http w le f. (c.of_sleep d w ∙ f.0, small n le, f.2, omega arith);
      spent = λ n r http w e f. ground arith;
    }
      where
        small : (n : ℕ) → pos (suc n) ≤ℤ req.retry_count → suc n ≤ m
        small n le = let bound = rw here at le in omega arith

        finished :
            (n : ℕ) (r : StepResult) (http : ℤ) (w : World) (r' : StepResult)
            → Before m c0 n r http w
            → judge env req n r http (execute_single_attempt h env req w).0 ≡ finish r'
            → WithinRetries m c0 r' (execute_single_attempt h env req w).1
        finished n r http w r' p e =
            let (v, given, same) = judge-finish env req n r http _ r' e in
            rw same (omega (arith, attempt-calls w))

        failed :
            (n : ℕ) (r : StepResult) (http : ℤ) (w : World) (r' : StepResult) (http' : ℤ)
            → Before m c0 n r http w
            → judge env req n r http (execute_single_attempt h env req w).0 ≡ again r' http'
            → After m c0 n r' http' (execute_single_attempt h env req w).1
        failed n r http w r' http' p e = elim (judge-again env req n r http _ r' http' e) [
          | inl (v, given, same, bad, _, _) ↦ rw same (omega (arith, attempt-calls w))
          | inr (s, given, same) ↦ rw same (omega (arith, attempt-calls w))
        ]

    -- A step with 0 to 56 retries ends. It runs the block, whose runs are counted, at most once more
    -- than it has retries, and reports as `retries_used` a number between 0 and the retries and no
    -- larger than the number of runs.
    pub execute_with_retry-WithinRetries :
        (m : ℕ) (w : World)
        → req.retry_count ≡ pos m
        → m ≤ 56
        → (r : StepResult) × (w' : World) × (execute_with_retry h env req w ≡ some (r, w'))
          × WithinRetries m (calls w) r w'
    execute_with_retry-WithinRetries m w here few =
        execute_with_retry-Returns h env req _ _ _ (counted-IsKept m (calls w) here) m w here few
          (omega (arith, c.of_now w))

    -- The block answers, and each answer is a failure of a permanent kind.
    abbrev pub FailsForGood : Type 0
    FailsForGood =
        (w : World)
        → (v : StepResult) × ((execute req w).0 ≡ value v)
          × (v.status ≢ ok)
          × IsPermanent v.error_code

    -- Under the flag a step that is no HTTP request and fails for good is not tried again: the block
    -- runs once, or not at all when the budget is spent before.
    permanent-IsKept :
        (c0 : ℕ)
        → is_advanced_retry_enabled env ≡ true
        → (req.type =ˢ "http.request") ≡ false
        → FailsForGood
        → IsKept h env req
            (λ n r http w. (calls w ≡ c0) × (http ≡ pos 0))
            (λ n r http w. ⊥)
            (λ r w. calls w ≤ suc c0)
    permanent-IsKept c0 on other bad = record {
      clock = λ n r http w p. (c.of_now w ∙ p.0, p.1);
      clock_after = λ n r http w f. absurd f;
      cut_before = λ n r http w p. omega arith;
      cut_after = λ n r http w f. absurd f;
      finished = λ n r http w r' p e. omega (arith, attempt-calls w);
      failed = λ n r http w r' http' p e. failed n r http w r' http' p.1 e;
      slept = λ n d r http w le f. absurd f;
      spent = λ n r http w e f. absurd f;
    }
      where
        failed :
            (n : ℕ) (r : StepResult) (http : ℤ) (w : World) (r' : StepResult) (http' : ℤ)
            → http ≡ pos 0
            → judge env req n r http (execute_single_attempt h env req w).0 ≡ again r' http'
            → ⊥
        failed n r http w r' http' zero_http e = elim (judge-again env req n r http _ r' http' e) [
          | inr (s, given, same) ↦
              let (u, answer, _, _) = bad (now w).1 in attempt-failure h env req w s given u answer
          | inl (v, given, same, _, status, retry) ↦
              let (u, answer, got) = attempt-value h env req w v given in
              let (u', answer', _, permanent) = bad (now w).1 in
              let code : r'.error_code ≡ u'.error_code = ground arith in
              let http_zero : http' ≡ pos 0 = status ∙ unfold status_of in (rw other zero_http) in
              let final : is_retryable env r'.error_code http' ≡ false =
                rw (code, http_zero)
                  ((is_retryable_iff env u'.error_code (pos 0) on).1
                    (inr (omega arith, permanent))) in
              cc
        ]

    -- Under the flag, a step with 0 to 56 retries that is no HTTP request and whose block always
    -- fails for good ends and is not tried again: the block runs at most once.
    pub execute_with_retry_permanent :
        (m : ℕ) (w : World)
        → req.retry_count ≡ pos m
        → m ≤ 56
        → is_advanced_retry_enabled env ≡ true
        → (req.type =ˢ "http.request") ≡ false
        → FailsForGood
        → (r : StepResult) × (w' : World) × (execute_with_retry h env req w ≡ some (r, w'))
          × (calls w' ≤ suc (calls w))
    execute_with_retry_permanent m w here few on other bad =
        execute_with_retry-Returns h env req _ _ _ (permanent-IsKept (calls w) on other bad) m w
          here few (c.of_now w, refl)

  -- With a negative retry count the block never runs, and the step is reported as a success with
  -- the default-constructed result.
  pub execute_with_retry_negative :
      (env : Env) (req : StepRequest) (n : ℕ) (w : World)
      → req.retry_count ≡ negsuc n
      → (execute_with_retry h env req w ≡ some (default_result, (now w).1))
        × (default_result.status ≡ ok)
  execute_with_retry_negative env req n w here = (
    unfold execute_with_retry retry_loop in
        ap (λ m. retry_loop h env req (rounds m) (now w).0 0 default_result (pos 0) (now w).1) here,
    refl,
  )
