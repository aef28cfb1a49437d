-- ===== src/Runtime/Stubs.antt =====
-- processor/src/executors: five blocks that stand for the real ones. A block reads the steady clock,
-- `now`, before and after; `inputs.at(key)` throws on a missing key.
use beamline_caf.Base.{
  ℕ, ◌-◌, pos, [], ◌∷◌, String, Dict, none, some, lookup, to_string, byte_length,
}
use beamline_caf.Blocks.{M, ◌>>=◌, pure, throw, done}
use beamline_caf.Runtime.Types.{
  ok, StepRequest, StepResult, BlockExecutor, zero_result, zero_metrics, to_int,
}

-- The five classes.
pub data Stub : Type 0 where
  fs_blob_get fs_blob_put http_request human_approval sql_query : Stub

module _ {World : Type 0} (now : World → ℕ × World) where
  unfoldable pub read_clock : M World ℕ
  read_clock w = let (t, v) = now w in (done t, v)

  unfoldable pub at : String → Dict → M World String
  at key inputs = elim (lookup key inputs) [
    | none ↦ throw "unordered_map::at"
    | some held ↦ pure held
  ]

  -- The frame that the five share: the outputs are made between two readings of the clock.
  unfoldable pub finish_result : ℕ → Dict → M World StepResult
  unfolding read_clock
  finish_result start outputs = read_clock >>= λ end. pure (record zero_result {
    status = ok;
    outputs = outputs;
    retries_used = pos 0;
    error = "";
    latency_ms = to_int (end - start);
  })

  unfoldable pub timed_outputs : M World Dict → M World StepResult
  unfolding finish_result
  timed_outputs make_outputs = read_clock >>= λ start. make_outputs >>= finish_result start

  unfoldable pub fs_blob_get_outputs : StepRequest → M World Dict
  unfolding at
  fs_blob_get_outputs req =
      at "path" req.inputs >>= λ path. pure (("path", path) ∷ ("bytes", "0") ∷ [])

  unfoldable pub fs_blob_put_outputs : StepRequest → M World Dict
  unfolding at
  fs_blob_put_outputs req = at "path" req.inputs >>= λ path. at "data" req.inputs >>= λ content.
      pure (("path", path) ∷ ("bytes", to_string (byte_length content)) ∷ [])

  unfoldable pub http_request_outputs : StepRequest → M World Dict
  http_request_outputs req = pure req.inputs

  unfoldable pub human_approval_outputs : StepRequest → M World Dict
  human_approval_outputs req = pure (("approval", "requested") ∷ ("actor", req.ctx.tenant_id) ∷ [])

  unfoldable pub sql_query_outputs : StepRequest → M World Dict
  unfolding at
  sql_query_outputs req =
      at "query" req.inputs >>= λ query. pure (("rows", "0") ∷ ("query", query) ∷ [])

  unfoldable pub stub_outputs : Stub → StepRequest → M World Dict
  unfolding fs_blob_get_outputs
  stub_outputs fs_blob_get = fs_blob_get_outputs
  stub_outputs fs_blob_put = fs_blob_put_outputs
  stub_outputs http_request = http_request_outputs
  stub_outputs human_approval = human_approval_outputs
  stub_outputs sql_query = sql_query_outputs

  unfoldable pub stub_executor : Stub → BlockExecutor World
  unfolding timed_outputs stub_outputs
  stub_executor stub = record {
    init = λ ctx. ok;
    execute = λ req. timed_outputs (stub_outputs stub req);
    cancel = λ ctx. ok;
    metrics = zero_metrics;
  }
