-- ===== src/Worker/Delivery.antt =====
-- Where a request and a cancellation go.
use beamline_caf.Base.{ℤ, ◌≡◌, refl, [], ◌∷◌, map, String, some, lookup}
use beamline_caf.Core.{WorkerConfig, StepRequest, ResourceClass, cpu, gpu, io}
use beamline_caf.Worker.{
  PoolConfig, initialize_pools, get_pool_for_resource, routed_class, new_worker, on_execute,
  on_cancel,
}

-- The size that the configuration gives a class.
abbrev pub size_of : WorkerConfig → ResourceClass → ℤ
size_of config cpu = config.cpu_pool_size
size_of config gpu = config.gpu_pool_size
size_of config io = config.io_pool_size

abbrev pub pool : WorkerConfig → ResourceClass → PoolConfig
pool config class = record { resource_class = class; max_concurrency = size_of config class }

found :
    (config : WorkerConfig) (class : ResourceClass)
    → get_pool_for_resource (initialize_pools config) class ≡ some (pool config class)
unfolding get_pool_for_resource initialize_pools lookup
found config cpu = refl
found config gpu = refl
found config io = refl

-- A worker delegates every request to a pool that exists, of the class that the request names and of
-- the size that the configuration gives that class, and sends a cancellation to each of its three
-- pools, once.
pub on_execute-new_worker :
    (config : WorkerConfig) (request : StepRequest) (step_id : String)
    → (on_execute (new_worker config).0.pools "execute" request
        ≡ some (pool config (routed_class request)))
      × (on_cancel (new_worker config).0.pools "cancel" step_id
          ≡ map (λ class. (pool config class, step_id)) (cpu ∷ gpu ∷ io ∷ []))
unfolding on_execute on_cancel new_worker initialize_pools
on_execute-new_worker config request step_id = (found config (routed_class request), refl)
