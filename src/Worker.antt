-- ===== src/Worker.antt =====
-- processor/src/worker_actor.cpp, `WorkerActorState`: three pools, and the routing of messages to
-- them. A pool's address is the class and the size that it was spawned with.
pub mod Delivery
pub mod Family
pub mod Cluster
pub mod Classes
pub mod Crew
use beamline_caf.Base.{
  ℤ, int_to_string, List, [], ◌∷◌, String, ◌=ˢ◌, Option, none, some, lookup, insert, if◌then◌else◌,
}
use beamline_caf.Core.{WorkerConfig, StepRequest, BlockContext, ResourceClass, cpu, gpu, io}
use beamline_caf.Observability.Log.{Line, info, plain_line}

pub record PoolConfig : Type 0 where
  pub resource_class : ResourceClass
  pub max_concurrency : ℤ

-- `pools_`.
abbrev pub Pools : Type 0
Pools = List (String × PoolConfig)

unfoldable pub initialize_pools : WorkerConfig → Pools
unfolding insert
initialize_pools config =
    let cpu_config : PoolConfig = record {
      resource_class = cpu;
      max_concurrency = config.cpu_pool_size;
    } in
    let gpu_config : PoolConfig = record {
      resource_class = gpu;
      max_concurrency = config.gpu_pool_size;
    } in
    let io_config : PoolConfig = record {
      resource_class = io;
      max_concurrency = config.io_pool_size;
    } in
    insert "io" io_config (insert "gpu" gpu_config (insert "cpu" cpu_config []))

-- `none` is the null address that `pools_[key]` would make for a missing key.
unfoldable pub get_pool_for_resource : Pools → ResourceClass → Option PoolConfig
get_pool_for_resource pools cpu = lookup "cpu" pools
get_pool_for_resource pools gpu = lookup "gpu" pools
get_pool_for_resource pools io = lookup "io" pools

-- The class by which the worker routes: what the request names, and "cpu" for anything else.
unfoldable pub routed_class : StepRequest → ResourceClass
routed_class request = elim (lookup "class" request.resources) [
  | none ↦ cpu
  | some class ↦ if class =ˢ "gpu" then gpu else if class =ˢ "io" then io else cpu
]

-- The handler of "execute": the pool that the request is delegated to; any other atom is ignored.
unfoldable pub on_execute : Pools → String → StepRequest → Option PoolConfig
on_execute pools atom request =
    if atom =ˢ "execute" then get_pool_for_resource pools (routed_class request) else none

-- The handler of "cancel": the step id goes to every pool.
unfoldable pub on_cancel : Pools → String → String → List (PoolConfig × String)
on_cancel [] atom step_id = []
on_cancel ((name, pool) ∷ pools) atom step_id =
    if atom =ˢ "cancel" then (pool, step_id) ∷ on_cancel pools atom step_id else []

-- `executors_` is never filled.
pub record WorkerActorState : Type 0 where
  pub config : WorkerConfig
  pub pools : Pools

-- The lines of `initialize_pools`, of `register_executors` and of the constructor.
abbrev pub start_lines : WorkerConfig → List Line
start_lines config =
    record (plain_line info "Actor pools initialized") {
      context =
          ("cpu_pool", "initialized")
          ∷ ("gpu_pool", "initialized")
          ∷ ("io_pool", "initialized")
          ∷ [];
    }
    ∷ plain_line info "Block executors registration system initialized"
    ∷ record (plain_line info "WorkerActor initialized") {
      context =
          ("cpu_pool_size", int_to_string config.cpu_pool_size)
          ∷ ("gpu_pool_size", int_to_string config.gpu_pool_size)
          ∷ ("io_pool_size", int_to_string config.io_pool_size)
          ∷ [];
    }
    ∷ []

-- The constructor, with what it logs.
unfoldable pub new_worker : WorkerConfig → WorkerActorState × List Line
unfolding initialize_pools
new_worker config =
    (record { config = config; pools = initialize_pools config }, start_lines config)

-- The handlers of "metrics" and "context" log a line; the context goes no further.
unfoldable pub on_metrics : String → List Line
on_metrics atom = if atom =ˢ "metrics" then plain_line info "Metrics requested" ∷ [] else []

unfoldable pub on_context : String → BlockContext → List Line
on_context atom ctx =
    if atom =ˢ "context" then record (plain_line info "Context updated") { ids = ctx } ∷ [] else []
