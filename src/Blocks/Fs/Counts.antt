-- ===== src/Blocks/Fs/Counts.antt =====
-- How the executions of a file block are counted.
use beamline_caf.Base.{ℕ, refl, inl, inr, String, Bool-cases, ◌∷◌, []}
use beamline_caf.Core.{BlockContext, StepRequest, success, metadata_from_context}
use beamline_caf.Flags.{Env}
use beamline_caf.Blocks.Counts.{IsCounted, fail-IsCounted}
use beamline_caf.Blocks.{
  BlockState, record_success, validate_required_inputs, Attempt, done, thrown,
}
use beamline_caf.Blocks.Fs.{
  FileSystem, written, write_result, read_result, execute_put, execute_get,
}

module _ (f : FileSystem) (env : Env) where
  open f use {World, now}

  write_result-IsCounted :
      (path content : String) (ctx : BlockContext) (start_time : ℕ) (s : BlockState)
      (x : Attempt (Unit {0}) × World)
      → IsCounted ctx s
          (write_result f env path content (metadata_from_context ctx) start_time s x).0
          (write_result f env path content (metadata_from_context ctx) start_time s x).1
  write_result-IsCounted path content ctx start_time s (done _, w) =
      unfold written success record_success in (refl, refl, inl (refl, refl, refl, refl))
  write_result-IsCounted path content ctx start_time s (thrown what, w) =
      fail-IsCounted now _ _ ctx start_time s w

  read_result-IsCounted :
      (path : String) (ctx : BlockContext) (start_time : ℕ) (s : BlockState)
      (x : Attempt (String × ℕ × ℕ) × World)
      → IsCounted ctx s
          (read_result f env path (metadata_from_context ctx) start_time s x).0
          (read_result f env path (metadata_from_context ctx) start_time s x).1
  read_result-IsCounted path ctx start_time s (done (content, latency_ms, modified), w) =
      unfold success record_success in (refl, refl, inl (refl, refl, refl, refl))
  read_result-IsCounted path ctx start_time s (thrown what, w) =
      fail-IsCounted now _ _ ctx start_time s w

  -- Whatever the request and the file system, a write returns a success or an error with the ids of
  -- its context, and its block counts it as that and as nothing else.
  pub execute_put-IsCounted :
      (req : StepRequest) (ctx : BlockContext) (s : BlockState) (w : World)
      → IsCounted ctx s (execute_put f env req ctx s w).0 (execute_put f env req ctx s w).1
  unfolding execute_put
  execute_put-IsCounted req ctx s w =
      elim (Bool-cases (validate_required_inputs req ("path" ∷ "content" ∷ []))) [
        | inl e ↦ rw e (write_result-IsCounted _ _ ctx _ s _)
        | inr e ↦ rw e (fail-IsCounted now _ _ ctx _ s _)
      ]

  -- So does a read.
  pub execute_get-IsCounted :
      (req : StepRequest) (ctx : BlockContext) (s : BlockState) (w : World)
      → IsCounted ctx s (execute_get f env req ctx s w).0 (execute_get f env req ctx s w).1
  unfolding execute_get
  execute_get-IsCounted req ctx s w =
      elim (Bool-cases (validate_required_inputs req ("path" ∷ []))) [
        | inl e ↦ rw e (read_result-IsCounted _ ctx _ s _)
        | inr e ↦ rw e (fail-IsCounted now _ _ ctx _ s _)
      ]
