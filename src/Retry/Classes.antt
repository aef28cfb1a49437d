-- ===== src/Retry/Classes.antt =====
-- Which errors are tried again.
use beamline_caf.Base.{ℤ, pos, ◌≤◌, ◌<◌, ◌≤ℤ◌, ◌≡◌, ◌↔◌, ◌⊎◌, true, false, arith}
use beamline_caf.Core.{ErrorCode, code_number}
use beamline_caf.Flags.{Env, is_advanced_retry_enabled}
use beamline_caf.Retry.{is_retryable, is_retryable_code}

-- The errors that a second attempt cannot mend, by their numbers: validation (1xxx), the missing
-- permission (2003) and cancellation (5xxx).
abbrev pub IsPermanent : ErrorCode → Type 0
IsPermanent c =
    ((1000 ≤ code_number c) × (code_number c < 2000))
    ⊎ (code_number c ≡ 2003)
    ⊎ (5000 ≤ code_number c)

is_retryable_code_iff : (c : ErrorCode) → (is_retryable_code c ≡ false) ↔ IsPermanent c
unfolding is_retryable_code code_number
is_retryable_code_iff ErrorCode.none = ground arith
is_retryable_code_iff c = ground arith

-- Under the flag an error is final exactly when its HTTP status is a client error (4xx), or its
-- code is a permanent one and no higher status overrides that.
pub is_retryable_iff :
    (env : Env) (c : ErrorCode) (http : ℤ)
    → is_advanced_retry_enabled env ≡ true
    → (is_retryable env c http ≡ false)
      ↔ (((pos 400 ≤ℤ http) × (http ≤ℤ pos 499)) ⊎ ((http ≤ℤ pos 399) × IsPermanent c))
unfolding is_retryable
is_retryable_iff env c http on = rw on (ground (arith, is_retryable_code_iff c))

-- Without the flag everything is tried again.
pub is_retryable_always :
    (env : Env) (c : ErrorCode) (http : ℤ)
    → is_advanced_retry_enabled env ≡ false
    → is_retryable env c http ≡ true
unfolding is_retryable
is_retryable_always env c http off = rw off
