-- ===== src/Blocks.antt =====
-- processor/include/beamline/worker/base_block_executor.hpp, `BaseBlockExecutor`: the state that
-- every block keeps, and what the blocks ask of the machine.
pub mod Counts
pub mod Executed
pub mod Created
pub mod Fs
pub mod Http
pub mod Human
pub mod Sql
use beamline_caf.Base.{
  ◌≡◌, refl, ap, arith, ℕ, ◌-◌, ℤ, pos, inc, Bool, true, false, List, String, Dict, lookup, all,
  is_some, or_else,
}
use beamline_caf.Core.{
  BlockContext, empty_context, ErrorCode, ResultMetadata, error_result, BlockMetrics, ResourceClass,
  StepRequest, StepResult,
}

pub record BlockState : Type 0 where
  pub block_type : String
  pub resource_class : ResourceClass
  pub context : BlockContext
  pub metrics : BlockMetrics

abbrev pub no_metrics : BlockMetrics
no_metrics = record {
  latency_ms = pos 0;
  cpu_time_ms = pos 0;
  mem_bytes = pos 0;
  success_count = pos 0;
  error_count = pos 0;
}

-- The constructor: the context is empty until `init`.
unfoldable pub new_block : String → ResourceClass → BlockState
new_block block_type resource_class = record {
  block_type = block_type;
  resource_class = resource_class;
  context = empty_context;
  metrics = no_metrics;
}

unfoldable pub init : BlockContext → BlockState → BlockState
init ctx s = record s { context = ctx }

unfoldable pub record_success : ℕ → ℤ → ℤ → BlockState → BlockState
record_success latency_ms cpu_time_ms mem_bytes s = record s {
  metrics = record {
    latency_ms = pos latency_ms;
    cpu_time_ms = cpu_time_ms;
    mem_bytes = mem_bytes;
    success_count = inc s.metrics.success_count;
    error_count = s.metrics.error_count;
  };
}

unfoldable pub record_error : ℕ → BlockState → BlockState
record_error latency_ms s = record s {
  metrics = record {
    latency_ms = pos latency_ms;
    cpu_time_ms = s.metrics.cpu_time_ms;
    mem_bytes = s.metrics.mem_bytes;
    success_count = s.metrics.success_count;
    error_count = inc s.metrics.error_count;
  };
}

-- What a block returns: its result, its state and the world after.
abbrev pub Outcome : Type 0 → Type 0
Outcome World = StepResult × BlockState × World

-- The error exit that the blocks share: the clock is read, the error is counted, and the result
-- carries the time that has passed.
unfoldable pub fail :
    {World : Type 0}
    → (World → ℕ × World)
    → ErrorCode
    → String
    → ResultMetadata
    → ℕ
    → BlockState
    → World
    → Outcome World
fail now code message metadata start_time s w =
    let (end_time, w') = now w in
    let latency_ms : ℕ = end_time - start_time in
    (error_result code message metadata (pos latency_ms), record_error latency_ms s, w')

unfoldable pub validate_required_inputs : StepRequest → List String → Bool
validate_required_inputs req required_inputs =
    all (λ input. is_some (lookup input req.inputs)) required_inputs

abbrev pub get_input_or_default : StepRequest → String → String → String
get_input_or_default req key default_value = or_else (lookup key req.inputs) default_value

-- What a call into a library does: it returns, or throws an exception with this text.
pub data Attempt {ℓ} (A : Type ℓ) : Type ℓ where
  done : A → Attempt A
  thrown : String → Attempt A

-- Steps over a world that may throw.
abbrev pub M : Type 0 → Type 0 → Type 0
M World A = World → Attempt A × World

infixl 5 ◌>>=◌ ◌>>◌
abbrev pub ◌>>=◌ : {World A B : Type 0} → M World A → (A → M World B) → M World B
◌>>=◌ m f w = let (r, w') = m w in elim r [ done a ↦ f a w' | thrown e ↦ (thrown e, w') ]

abbrev pub ◌>>◌ : {World B : Type 0} → M World (Unit {0}) → M World B → M World B
m >> k = m >>= λ _. k

abbrev pub pure : {World A : Type 0} → A → M World A
pure a w = (done a, w)

abbrev pub throw : {World A : Type 0} → String → M World A
throw e w = (thrown e, w)

-- A bind that returns, taken apart.
pub bind-done :
    {World A B : Type 0} (m : M World A) (f : A → M World B) (w : World) {b : B} {v : World}
    → (m >>= f) w ≡ (done b, v)
    → (a : A) × (u : World) × (m w ≡ (done a, u)) × (f a u ≡ (done b, v))
bind-done {World} {A} {B} m f w {b} {v} h = split (m w) refl h
  where
    split :
        (x : Attempt A × World)
        → m w ≡ x
        → elim (x.0) [ done a ↦ f a x.1 | thrown e ↦ (thrown e, x.1) ] ≡ (done b, v)
        → (a : A) × (u : World) × (m w ≡ (done a, u)) × (f a u ≡ (done b, v))
    split (done a, u) e k = (a, u, e, k)
    split (thrown what, u) e k = ground arith

-- A bind whose first step is known to return.
pub run-bind :
    {World A B : Type 0} (m : M World A) (f : A → M World B) (w : World) {a : A} {u : World}
    → m w ≡ (done a, u)
    → (m >>= f) w ≡ f a u
run-bind {World} {A} {B} m f w e = ap (then f) e
  where
    then : (A → M World B) → Attempt A × World → Attempt B × World
    then f x = elim (x.0) [ done a ↦ f a x.1 | thrown e ↦ (thrown e, x.1) ]
