-- ===== src/Executor/Rule.antt =====
-- The rule by which the loop of `execute_with_retry` is proved: it returns, and what it returns
-- satisfies a postcondition that every way out of a round establishes.
use beamline_caf.Base.{
  ℕ, zero, suc, ◌+◌, ◌-◌, ◌*◌, ◌^◌, ◌≤◌, ◌≡◌, refl, sym, ap, ◌∙◌, subst, ℤ, pos, ◌≤ℤ◌, leb_ℤ, ltb_ℤ,
  Bool, true, false, Option, none, some, arith, ◌⊎◌, inl, inr, Bool-cases, Option-cases, min,
  lt→ltb,
}
use beamline_caf.Core.{StepRequest, StepResult, default_result}
use beamline_caf.Flags.{Env, is_advanced_retry_enabled}
use beamline_caf.Retry.{calculate_backoff_delay, is_budget_exhausted}
use beamline_caf.Retry.Backoff.{backoff-IsExecutorConfig}
use beamline_caf.Executor.{
  Host, config_of, Verdict, finish, again, judge, cut, total_exceeded, backoff_exceeds, rounds,
  execute_single_attempt, back_off, retry_loop, execute_with_retry,
}

-- Up to attempt 56 the delay is defined, with and without the flag.
pub backoff_defined :
    (env : Env) (req : StepRequest) (attempt : ℕ)
    → attempt ≤ 56
    → (d : ℕ) × (calculate_backoff_delay env (config_of req) attempt ≡ some d)
backoff_defined env req attempt small = elim (Bool-cases (is_advanced_retry_enabled env)) [
  | inl on ↦ elim (backoff-IsExecutorConfig env (config_of req) attempt on (refl, refl)) [
    | inl (_, e) ↦ (min (100 * 2 ^ attempt) 5000, e)
    | inr (large, _) ↦ absurd (omega arith)
  ]
  | inr off ↦ (100 * (attempt + 1), linear off)
]
  where
    linear :
        is_advanced_retry_enabled env ≡ false
        → calculate_backoff_delay env (config_of req) attempt ≡ some (100 * (attempt + 1))
    linear off =
        unfold calculate_backoff_delay in
        rw (off, lt→ltb (100 * (attempt + 1)) (2 ^ 31) (omega arith))

pub budget_defined :
    (env : Env) (req : StepRequest) (elapsed attempt : ℕ)
    → attempt ≤ 56
    → (b : Bool) × (is_budget_exhausted env (config_of req) elapsed attempt ≡ some b)
budget_defined env req elapsed attempt small =
    elim (Option-cases (is_budget_exhausted env (config_of req) elapsed attempt)) [
      | inl undefined ↦ absurd (impossible undefined)
      | inr found ↦ found
    ]
  where
    impossible : is_budget_exhausted env (config_of req) elapsed attempt ≡ none → ⊥
    impossible undefined =
        let (d, e) = backoff_defined env req attempt small in
        unfold is_budget_exhausted in ground arith

pub Verdict-cases :
    (v : Verdict)
    → ((r : StepResult) × (v ≡ finish r)) ⊎ ((r : StepResult) × (http : ℤ) × (v ≡ again r http))
Verdict-cases (finish r) = inl (r, refl)
Verdict-cases (again r http) = inr (r, http, refl)

last : (n : ℕ) → ltb_ℤ (pos n) (pos (n + 0)) ≡ false
last n = ground arith

more : (n left : ℕ) → ltb_ℤ (pos n) (pos (n + suc left)) ≡ true
more n left = ground arith

module _ (h : Host) (env : Env) (req : StepRequest) where
  open h use {World, now, sleep_for}

  -- What a property of the loop comes down to: `P` holds before an attempt, `F` after a failed one,
  -- and `Q` of what is returned.
  pub record IsKept (P F : ℕ → StepResult → ℤ → World → Type 0) (Q : StepResult → World → Type 0)
      : Type 0 where
    pub clock :
        (n : ℕ) (r : StepResult) (http : ℤ) (w : World) → P n r http w → P n r http (now w).1
    pub clock_after :
        (n : ℕ) (r : StepResult) (http : ℤ) (w : World) → F n r http w → F n r http (now w).1
    pub cut_before :
        (n : ℕ) (r : StepResult) (http : ℤ) (w : World)
        → P n r http w
        → Q (cut total_exceeded n r) w
    pub cut_after :
        (n : ℕ) (r : StepResult) (http : ℤ) (w : World)
        → F n r http w
        → Q (cut backoff_exceeds n r) w
    pub finished :
        (n : ℕ) (r : StepResult) (http : ℤ) (w : World) (r' : StepResult)
        → P n r http w
        → judge env req n r http (execute_single_attempt h env req w).0 ≡ finish r'
        → Q r' (execute_single_attempt h env req w).1
    pub failed :
        (n : ℕ) (r : StepResult) (http : ℤ) (w : World) (r' : StepResult) (http' : ℤ)
        → P n r http w
        → judge env req n r http (execute_single_attempt h env req w).0 ≡ again r' http'
        → F n r' http' (execute_single_attempt h env req w).1
    pub slept :
        (n d : ℕ) (r : StepResult) (http : ℤ) (w : World)
        → pos (suc n) ≤ℤ req.retry_count
        → F n r http w
        → P (suc n) r http (sleep_for d w)
    pub spent :
        (n : ℕ) (r : StepResult) (http : ℤ) (w : World)
        → pos n ≡ req.retry_count
        → F n r http w
        → Q r w

  module _ (P F : ℕ → StepResult → ℤ → World → Type 0) (Q : StepResult → World → Type 0)
      (k : IsKept P F Q) where
    abbrev Returns : Option (StepResult × World) → Type 0
    Returns o = (r : StepResult) × (w : World) × (o ≡ some (r, w)) × Q r w

    back_off-Returns :
        (continue : StepResult → World → Option (StepResult × World)) (start n : ℕ) (r : StepResult)
        (http : ℤ) (w : World)
        → n ≤ 56
        → F n r http w
        → ((d : ℕ) (w' : World) → F n r http w' → Returns (continue r (sleep_for d w')))
        → Returns (back_off h env req continue start n r w)
    unfolding back_off
    back_off-Returns continue start n r http w small f go =
        let (d, e) = backoff_defined env req n small in
        let f' = k.clock_after n r http w f in
        elim (Bool-cases (leb_ℤ req.timeout_ms (pos ((now w).0 + d - start)))) [
          | inl late ↦ (
            cut backoff_exceeds n r,
            (now w).1,
            rw (e, back_off, late),
            k.cut_after n r http (now w).1 f',
          )
          | inr early ↦
              let (r', w', e', q) = go d (now w).1 f' in (r', w', rw (e, back_off, early) e', q)
        ]

    -- One round, over the rounds that follow it when the attempt failed.
    round-Returns :
        (left start n : ℕ) (r : StepResult) (http : ℤ) (w : World)
        → n ≤ 56
        → P n r http w
        → ((r' : StepResult) (http' : ℤ) (w' : World)
            → F n r' http' w'
            → Returns (elim (ltb_ℤ (pos n) req.retry_count) [
              | true ↦
                  back_off h env req
                    (λ f. retry_loop h env req left start (suc n) f http')
                    start
                    n
                    r'
                    w'
              | false ↦ retry_loop h env req left start (suc n) r' http' w'
            ]))
        → Returns (retry_loop h env req (suc left) start n r http w)
    unfolding retry_loop
    round-Returns left start n r http w small p rest =
        let (b, e) = budget_defined env req ((now w).0 - start) n small in
        let p' = k.clock n r http w p in
        let attempt = execute_single_attempt h env req (now w).1 in
        elim (Bool-cases b) [
          | inl t ↦ (
            cut total_exceeded n r,
            (now w).1,
            rw (e, t, retry_loop),
            k.cut_before n r http (now w).1 p',
          )
          | inr f ↦ elim (Verdict-cases (judge env req n r http attempt.0)) [
            | inl (r', v) ↦
                (r', attempt.1, rw (e, f, v, retry_loop), k.finished n r http (now w).1 r' p' v)
            | inr (r', http', v) ↦
                let (r2, w2, e2, q) =
                  rest r' http' attempt.1 (k.failed n r http (now w).1 r' http' p' v) in
                (r2, w2, rw (e, f, v, retry_loop) e2, q)
          ]
        ]

    loop-Returns :
        (left start n : ℕ) (r : StepResult) (http : ℤ) (w : World)
        → req.retry_count ≡ pos (n + left)
        → n + left ≤ 56
        → P n r http w
        → Returns (retry_loop h env req (suc left) start n r http w)
    loop-Returns zero start n r http w here few p =
        round-Returns zero start n r http w (omega arith) p λ r' http' w' f.
          rw (here, last n)
            (
              r',
              w',
              unfold retry_loop in refl,
              k.spent n r' http' w' (ap pos (omega arith) ∙ sym here) f,
            )
    loop-Returns (suc left) start n r http w here few p =
        round-Returns (suc left) start n r http w (omega arith) p λ r' http' w' f.
          rw (here, more n left)
            (back_off-Returns (λ g. retry_loop h env req (suc left) start (suc n) g http') start n
              r' http' w' (omega arith) f
              λ d w2 f2.
                loop-Returns left start (suc n) r' http' (sleep_for d w2)
                  (here ∙ ap pos (omega arith)) (omega arith)
                  (k.slept n d r' http' w2 (rw here (omega arith)) f2))

    -- With at most 56 retries the arithmetic stays defined: the step ends with a result, and the
    -- result has the postcondition.
    pub execute_with_retry-Returns :
        (m : ℕ) (w : World)
        → req.retry_count ≡ pos m
        → m ≤ 56
        → P 0 default_result (pos 0) (now w).1
        → Returns (execute_with_retry h env req w)
    unfolding execute_with_retry
    execute_with_retry-Returns m w here few p =
        subst
          (λ left. Returns (retry_loop h env req left (now w).0 0 default_result (pos 0) (now w).1))
          (sym (ap rounds here))
          (loop-Returns m (now w).0 0 default_result (pos 0) (now w).1 (here ∙ ap pos (omega arith))
            (omega arith) p)
