-- ===== src/Runtime/Callbacks.antt =====
-- Who hears of a request: the scheduler with its pools, and the tasks that run the stubs.
use beamline_caf.Base.{
  ℕ, ◌+◌, ◌≡◌, ◌≢◌, refl, Bool, true, false, List, [], ◌∷◌, String, some, lookup, all, is_some,
  length, arith, ◌∙◌, length-append, Option-cases, inl, inr,
}
use beamline_caf.Blocks.{M, Attempt, done, thrown, ◌>>=◌}
use beamline_caf.Runtime.Types.{StepRequest, ResourceClass, cpu, gpu, io, BlockExecutor}
use beamline_caf.Runtime.Threads.{ActorPool, submit, queue_depth}
use beamline_caf.Runtime.Stubs.{
  Stub, fs_blob_get, fs_blob_put, http_request, human_approval, sql_query, stub_executor,
  finish_result, timed_outputs, stub_outputs, fs_blob_get_outputs, fs_blob_put_outputs,
  sql_query_outputs, http_request_outputs, human_approval_outputs, at, read_clock,
}
use beamline_caf.Runtime.Schedule.{
  ScheduledTask, Pools, pool_of, with_pool, submit_to, schedule, call_back, run_task, depth_of,
}

module _ {World : Type 0} where
  depth_of-own :
      (own : ResourceClass) (pool : ActorPool (ScheduledTask World)) (pools : Pools World)
      → depth_of own (with_pool own pool pools) ≡ length pool.queue
  unfolding depth_of pool_of with_pool queue_depth
  depth_of-own cpu pool pools = refl
  depth_of-own gpu pool pools = refl
  depth_of-own io pool pools = refl

  depth_of-other :
      (own cls : ResourceClass) (pool : ActorPool (ScheduledTask World)) (pools : Pools World)
      → cls ≢ own
      → depth_of cls (with_pool own pool pools) ≡ depth_of cls pools
  unfolding depth_of pool_of with_pool
  depth_of-other cpu cpu pool pools h = absurd (h refl)
  depth_of-other cpu gpu pool pools h = refl
  depth_of-other cpu io pool pools h = refl
  depth_of-other gpu cpu pool pools h = refl
  depth_of-other gpu gpu pool pools h = absurd (h refl)
  depth_of-other gpu io pool pools h = refl
  depth_of-other io cpu pool pools h = refl
  depth_of-other io gpu pool pools h = refl
  depth_of-other io io pool pools h = absurd (h refl)

  depth_of-pool :
      (cls : ResourceClass) (pool : ActorPool (ScheduledTask World)) (pools : Pools World)
      → pool_of cls pools ≡ some pool
      → depth_of cls pools ≡ length pool.queue
  unfolding depth_of queue_depth
  depth_of-pool cls pool pools e = rw (e, depth_of) refl

  submit_to-depth_of :
      (own : ResourceClass) (task : ScheduledTask World) (pools : Pools World)
      → (depth_of own (submit_to own task pools).1 + length (submit_to own task pools).0
          ≡ depth_of own pools + 1)
        × ((cls : ResourceClass)
            → cls ≢ own
            → depth_of cls (submit_to own task pools).1 ≡ depth_of cls pools)
  unfolding submit_to
  submit_to-depth_of own task pools = elim (Option-cases (pool_of own pools)) [
    | inl e ↦ rw (e, submit_to) (ground arith, λ cls other. refl)
    | inr (pool, e) ↦
        rw (e, submit_to)
          (
            (unfold submit in
                ground (
                  arith,
                  depth_of-own own (submit task pool) pools,
                  depth_of-pool own pool pools e,
                  length-append pool.queue (task ∷ []),
                )),
            λ cls other. depth_of-other own cls (submit task pool) pools other,
          )
  ]

  -- A request is answered at once or waits in the pool of its class, never both nor neither, and the
  -- other pools are left alone.
  pub schedule-depth_of :
      (req : StepRequest) (callback : ℕ) (executor : BlockExecutor World) (pools : Pools World)
      → (depth_of req.resources.cls (schedule req callback executor pools).1
            + length (schedule req callback executor pools).0
          ≡ depth_of req.resources.cls pools + 1)
        × ((cls : ResourceClass)
            → cls ≢ req.resources.cls
            → depth_of cls (schedule req callback executor pools).1 ≡ depth_of cls pools)
  unfolding schedule
  schedule-depth_of req callback executor pools =
      submit_to-depth_of req.resources.cls
        (record { executor = executor; request = req; callback = callback }) pools

abbrev pub required : Stub → List String
required fs_blob_get = "path" ∷ []
required fs_blob_put = "path" ∷ "data" ∷ []
required http_request = []
required human_approval = []
required sql_query = "query" ∷ []

abbrev pub is_done {ℓ} : {A : Type ℓ} → Attempt A → Bool
is_done (done a) = true
is_done (thrown e) = false

-- What follows a step by a continuation that never throws returns when the step does.
bind-is_done :
    {World A B : Type 0} (m : M World A) (f : A → M World B) (w : World)
    → ((a : A) (u : World) → is_done (f a u).0 ≡ true)
    → is_done ((m >>= f) w).0 ≡ is_done (m w).0
bind-is_done {World} {A} {B} m f w total = ends (m w)
  where
    then : Attempt A × World → Attempt B × World
    then x = elim (x.0) [ done a ↦ f a x.1 | thrown e ↦ (thrown e, x.1) ]

    ends : (x : Attempt A × World) → is_done (then x).0 ≡ is_done x.0
    ends (done a, u) = total a u
    ends (thrown e, u) = refl

module _ {World : Type 0} (now : World → ℕ × World) where
  outputs-is_done :
      (stub : Stub) (req : StepRequest) (w : World)
      → is_done (stub_outputs now stub req w).0
        ≡ all (λ key. is_some (lookup key req.inputs)) (required stub)
  unfolding stub_outputs fs_blob_get_outputs fs_blob_put_outputs sql_query_outputs
      http_request_outputs human_approval_outputs at
  outputs-is_done fs_blob_get req w = ground (arith, Option-cases (lookup "path" req.inputs))
  outputs-is_done fs_blob_put req w =
      ground
        (arith, Option-cases (lookup "path" req.inputs), Option-cases (lookup "data" req.inputs))
  outputs-is_done sql_query req w = ground (arith, Option-cases (lookup "query" req.inputs))
  outputs-is_done http_request req w = refl
  outputs-is_done human_approval req w = refl

  -- The callback of a request to a stub is called exactly when the inputs that the stub reads are
  -- there: otherwise the stub throws, and the thread swallows the exception.
  pub run_task-is_done :
      (stub : Stub) (req : StepRequest) (callback : ℕ) (w : World)
      → is_done
          (run_task
            (record { executor = stub_executor now stub; request = req; callback = callback })
            w).0
        ≡ all (λ key. is_some (lookup key req.inputs)) (required stub)
  unfolding run_task call_back stub_executor timed_outputs finish_result read_clock
  run_task-is_done stub req callback w =
      bind-is_done (timed_outputs now (stub_outputs now stub req)) (call_back callback) w
        (λ a u. refl)
      ∙ bind-is_done (stub_outputs now stub req) (finish_result now (now w).0) (now w).1
          (λ a u. refl)
      ∙ outputs-is_done stub req (now w).1
