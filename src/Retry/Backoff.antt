-- ===== src/Retry/Backoff.antt =====
-- The delays between two attempts.
use beamline_caf.Base.{
  ℕ, ◌*◌, ◌^◌, ◌≤◌, ◌<◌, ◌≡◌, true, none, some, min, arith, ltb, lt→ltb, ◌⊎◌, inl, inr, dec_lt,
  Bool-cases, le→not-ltb,
}
use native.Mathlib.Nat.{pow-le-pow_right}
use beamline_caf.Flags.{Env, is_advanced_retry_enabled}
use beamline_caf.Retry.{Config, calculate_backoff_delay, is_budget_exhausted}

pow_mono : (a b : ℕ) → a ≤ b → 2 ^ a ≤ 2 ^ b
pow_mono a b h = pow-le-pow_right (omega arith) h

mul_mono : (b x y : ℕ) → x ≤ y → b * x ≤ b * y
mul_mono b x y h = grind arith

-- Under the flag, as long as the product fits a signed 64-bit number, the delay is the base doubled
-- at each attempt and capped.
pub backoff-advanced :
    (env : Env) (config : Config) (attempt : ℕ)
    → is_advanced_retry_enabled env ≡ true
    → attempt < 63
    → config.base_delay_ms * 2 ^ attempt < 2 ^ 63
    → calculate_backoff_delay env config attempt
      ≡ some (min (config.base_delay_ms * 2 ^ attempt) config.max_delay_ms)
unfolding calculate_backoff_delay
backoff-advanced env config attempt on small fits =
    rw (on, lt→ltb attempt 63 small, lt→ltb (config.base_delay_ms * 2 ^ attempt) (2 ^ 63) fits)

backoff_overflow :
    (env : Env) (config : Config) (attempt : ℕ)
    → is_advanced_retry_enabled env ≡ true
    → 2 ^ 63 ≤ config.base_delay_ms * 2 ^ attempt
    → calculate_backoff_delay env config attempt ≡ none
unfolding calculate_backoff_delay
backoff_overflow env config attempt on large = elim (Bool-cases (ltb attempt 63)) [
  | inl e ↦ rw (on, e, le→not-ltb (config.base_delay_ms * 2 ^ attempt) (2 ^ 63) large)
  | inr e ↦ rw (on, e)
]

-- The configuration of `execute_with_retry`: a base of 100 ms under a cap of 5 s.
abbrev pub IsExecutorConfig : Config → Type 0
IsExecutorConfig config = (config.base_delay_ms ≡ 100) × (config.max_delay_ms ≡ 5000)

-- With the executor's base and cap the exponential delay is defined up to attempt 56: there it
-- doubles from 100 ms to the cap of 5 s. From attempt 57 on the 64-bit product overflows.
pub backoff-IsExecutorConfig :
    (env : Env) (config : Config) (attempt : ℕ)
    → is_advanced_retry_enabled env ≡ true
    → IsExecutorConfig config
    → ((attempt ≤ 56)
        × (calculate_backoff_delay env config attempt ≡ some (min (100 * 2 ^ attempt) 5000)))
      ⊎ ((57 ≤ attempt) × (calculate_backoff_delay env config attempt ≡ none))
backoff-IsExecutorConfig env config attempt on (base, cap) = elim (dec_lt attempt 57) [
  | yes small ↦ inl (
    omega arith,
    rw (← base, ← cap) (backoff-advanced env config attempt on (omega arith) (fits small)),
  )
  | no large ↦ inr (omega arith, backoff_overflow env config attempt on (exceeds (omega arith)))
]
  where
    fits : attempt < 57 → config.base_delay_ms * 2 ^ attempt < 2 ^ 63
    fits small = rw base (omega (arith, pow_mono attempt 56 (omega arith)))

    exceeds : 57 ≤ attempt → 2 ^ 63 ≤ config.base_delay_ms * 2 ^ attempt
    exceeds large = rw base (omega (arith, pow_mono 57 attempt large))

-- The delay never falls from one attempt to a later one, under either setting of the flag.
pub backoff_mono :
    (env : Env) (config : Config) (a b d e : ℕ)
    → a ≤ b
    → calculate_backoff_delay env config a ≡ some d
    → calculate_backoff_delay env config b ≡ some e
    → d ≤ e
unfolding calculate_backoff_delay
backoff_mono env config a b d e h p q =
    ground (arith, pow_mono a b h, mul_mono config.base_delay_ms (2 ^ a) (2 ^ b))

-- A budget that is spent stays spent as time passes.
pub budget_mono :
    (env : Env) (config : Config) (elapsed later attempt : ℕ)
    → elapsed ≤ later
    → is_budget_exhausted env config elapsed attempt ≡ some true
    → is_budget_exhausted env config later attempt ≡ some true
unfolding is_budget_exhausted
budget_mono env config elapsed later attempt h e = ground arith
