-- ===== src/Blocks/Executed.antt =====
-- processor/include/beamline/worker/base_block_executor.hpp and worker_actor.cpp of processor/src: a
-- block as what an executor runs. The executor gives no context, so the block takes its own.
use beamline_caf.Base.{ℕ, ◌≡◌, ◌≢◌, refl, ℤ, pos, inl, inr}
use beamline_caf.Core.{BlockContext, StepRequest, StepResult, ok, Expected, value}
use beamline_caf.Flags.{Env}
use beamline_caf.Executor.{Host, finish, again, judge, execute_single_attempt}
use beamline_caf.Executor.Results.{
  numbered, judge-finish, judge-again, attempt-value, attempt-failure,
}
use beamline_caf.Blocks.{BlockState, Outcome}

-- `execute_impl` of a block.
abbrev pub Impl : Type 0 → Type 0
Impl World = StepRequest → BlockContext → BlockState → World → Outcome World

module _ {World : Type 0} where
  -- `execute` with a context, and the one without, which is what executors call.
  abbrev pub execute_with :
      Impl World
      → StepRequest
      → BlockContext
      → BlockState × World
      → Expected StepResult × (BlockState × World)
  execute_with impl req ctx (s, w) = let (r, s', w') = impl req ctx s w in (value r, (s', w'))

  abbrev pub execute :
      Impl World → StepRequest → BlockState × World → Expected StepResult × (BlockState × World)
  execute impl req (s, w) = execute_with impl req s.context (s, w)

-- An executor whose block is the given one, on a machine with this clock and this sleep.
abbrev pub host_of :
    (World : Type 0) → (World → ℕ × World) → (ℕ → World → World) → Impl World → Host
host_of World now sleep_for impl = record {
  World = BlockState × World;
  now = λ (s, w). let (t, w') = now w in (t, (s, w'));
  sleep_for = λ d (s, w). (s, sleep_for d w);
  execute = execute impl;
}

-- A block always answers, and what the loop takes from a round is the answer of the block in that
-- round, but for its latency and its number.
module _ {World : Type 0} (now : World → ℕ × World) (sleep_for : ℕ → World → World)
    (impl : Impl World) (env : Env) (req : StepRequest) where
  abbrev pub answer_at : BlockState × World → StepResult
  answer_at w = (impl req w.0.context w.0 (now w.1).1).0

  abbrev pub IsAnswerAt : ℕ → StepResult → BlockState × World → Type 0
  IsAnswerAt n r w = r ≡ record (answer_at w) { latency_ms = r.latency_ms; retries_used = pos n }

  from_attempt :
      (w : BlockState × World) (n : ℕ) (v r : StepResult)
      → (execute_single_attempt (host_of World now sleep_for impl) env req w).0 ≡ value v
      → r ≡ numbered n v
      → IsAnswerAt n r w
  from_attempt w n v r given same =
      let (u, answer, got) = attempt-value (host_of World now sleep_for impl) env req w v given in
      let own : answer_at w ≡ u = cc in rw (same, got, own) refl

  pub finish-IsAnswerAt :
      (n : ℕ) (r : StepResult) (http : ℤ) (w : BlockState × World) (r' : StepResult)
      → judge env req n r http
          (execute_single_attempt (host_of World now sleep_for impl) env req w).0
        ≡ finish r'
      → IsAnswerAt n r' w
  finish-IsAnswerAt n r http w r' e =
      let (v, given, same) = judge-finish env req n r http _ r' e in
      from_attempt w n v r' given same

  pub again-IsAnswerAt :
      (n : ℕ) (r : StepResult) (http : ℤ) (w : BlockState × World) (r' : StepResult) (http' : ℤ)
      → judge env req n r http
          (execute_single_attempt (host_of World now sleep_for impl) env req w).0
        ≡ again r' http'
      → IsAnswerAt n r' w × (r'.status ≢ ok)
  again-IsAnswerAt n r http w r' http' e = elim (judge-again env req n r http _ r' http' e) [
    | inl (v, given, same, bad, _, _) ↦ (from_attempt w n v r' given same, bad)
    | inr (s, given, same) ↦
        absurd (attempt-failure (host_of World now sleep_for impl) env req w s given _ refl)
  ]
