-- ===== src/Blocks/Counts.antt =====
-- What every execution of a block does to the block's counters.
use beamline_caf.Base.{ℕ, ◌≡◌, refl, ◌⊎◌, inr, inc, [], String}
use beamline_caf.Core.{
  BlockContext, StepResult, ok, error, ErrorCode, error_result, metadata_from_context,
}
use beamline_caf.Blocks.{BlockState, fail, record_error}

-- A success adds one to the successes and an error one to the errors; both carry the correlation
-- ids of the context, the block keeps its own context, and an error carries no outputs.
abbrev pub IsCounted : BlockContext → BlockState → StepResult → BlockState → Type 0
IsCounted ctx s r t =
    (r.metadata ≡ metadata_from_context ctx)
    × (t.context ≡ s.context)
    × (((r.status ≡ ok)
          × (r.error_code ≡ ErrorCode.none)
          × (t.metrics.success_count ≡ inc s.metrics.success_count)
          × (t.metrics.error_count ≡ s.metrics.error_count))
        ⊎ ((r.status ≡ error)
            × (r.outputs ≡ [])
            × (t.metrics.success_count ≡ s.metrics.success_count)
            × (t.metrics.error_count ≡ inc s.metrics.error_count)))

pub fail-IsCounted :
    {World : Type 0} (now : World → ℕ × World) (code : ErrorCode) (message : String)
    (ctx : BlockContext) (start_time : ℕ) (s : BlockState) (w : World)
    → IsCounted ctx s
        (fail now code message (metadata_from_context ctx) start_time s w).0
        (fail now code message (metadata_from_context ctx) start_time s w).1
unfolding fail error_result record_error
fail-IsCounted now code message ctx start_time s w = (refl, refl, inr (refl, refl, refl, refl))
