-- ===== src/Runtime/Schedule.antt =====
-- processor/src/runtime/scheduler.cpp, `Scheduler`: a request becomes a task of the pool of its
-- class.
use beamline_caf.Base.{ℕ, List, [], ◌∷◌, Option, none, some}
use beamline_caf.Blocks.{M, ◌>>=◌, pure}
use beamline_caf.Runtime.Types.{
  StepRequest, StepResult, error, ResourceClass, cpu, gpu, io, BlockExecutor, zero_result,
}
use beamline_caf.Runtime.Threads.{ActorPool, submit, queue_depth}

-- What the lambda that is submitted holds; `callback` names the caller's function.
pub record ScheduledTask (World : Type 0) : Type 0 where
  pub executor : BlockExecutor World
  pub request : StepRequest
  pub callback : ℕ

-- A call of a callback.
pub record Call : Type 0 where
  pub callback : ℕ
  pub result : StepResult

-- `Pools`: a null pointer is `none`.
pub record Pools (World : Type 0) : Type 0 where
  pub cpu_pool : Option (ActorPool (ScheduledTask World))
  pub gpu_pool : Option (ActorPool (ScheduledTask World))
  pub io_pool : Option (ActorPool (ScheduledTask World))

module _ {World : Type 0} where
  unfoldable pub pool_of : ResourceClass → Pools World → Option (ActorPool (ScheduledTask World))
  pool_of cpu pools = pools.cpu_pool
  pool_of gpu pools = pools.gpu_pool
  pool_of io pools = pools.io_pool

  unfoldable pub with_pool :
      ResourceClass → ActorPool (ScheduledTask World) → Pools World → Pools World
  with_pool cpu pool pools = record pools { cpu_pool = some pool }
  with_pool gpu pool pools = record pools { gpu_pool = some pool }
  with_pool io pool pools = record pools { io_pool = some pool }

  -- The task goes to its pool; a null pool is answered with an error.
  unfoldable pub submit_to :
      ResourceClass → ScheduledTask World → Pools World → List Call × Pools World
  unfolding pool_of with_pool submit
  submit_to cls task pools = elim (pool_of cls pools) [
    | none ↦ (
      record {
        callback = task.callback;
        result = record zero_result { status = error; error = "no pool" };
      }
          ∷ [],
      pools,
    )
    | some target ↦ ([], with_pool cls (submit task target) pools)
  ]

  -- `schedule`, with the callbacks that it calls itself. The default of its switch is met by no
  -- value of the enumeration.
  unfoldable pub schedule :
      StepRequest → ℕ → BlockExecutor World → Pools World → List Call × Pools World
  unfolding submit_to
  schedule req callback executor pools =
      submit_to req.resources.cls
        (record { executor = executor; request = req; callback = callback }) pools

  unfoldable pub call_back : ℕ → StepResult → M World Call
  call_back callback res = pure (record { callback = callback; result = res })

  -- The body of the task: the block runs, then the callback is called with its result.
  unfoldable pub run_task : ScheduledTask World → M World Call
  unfolding call_back
  run_task task = task.executor.execute task.request >>= call_back task.callback

  -- `queue_depth`, 0 for a null pool.
  unfoldable pub depth_of : ResourceClass → Pools World → ℕ
  unfolding pool_of queue_depth
  depth_of cls pools = elim (pool_of cls pools) [ none ↦ 0 | some pool ↦ queue_depth pool ]
