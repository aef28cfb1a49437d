-- ===== src/Worker/Cluster.antt =====
-- processor/src/worker_actor.cpp, the worker with its three pools: the pools handle what the worker
-- sends them, and the ends of their executors, one message at a time and in any order between pools.
use beamline_caf.Base.{ℕ, suc, ◌<◌, ◌≡◌, String, some, length}
use mathlib.Mathlib.Logic.Relation.{ReflTransGenᴰ}
use beamline_caf.Core.{WorkerConfig, StepRequest, ResourceClass}
use beamline_caf.Flags.{Env}
use beamline_caf.Pool.{with_request, with_text, bare, receive}
use beamline_caf.Pool.Executors.{System, initial}
use beamline_caf.Worker.{PoolConfig, new_worker, on_execute}
use beamline_caf.Worker.Delivery.{size_of}
use beamline_caf.Worker.Family.{with_class}

-- Each class's pool, with the executors that it has started.
abbrev pub Cluster : Type 0
Cluster = ResourceClass → System

-- A pool handles a request that the worker has routed to it, a cancellation, which goes to every
-- pool, or the "done" of an executor that runs.
pub data PoolStep (config : WorkerConfig) (class : ResourceClass) (s t : System) : Type 0 where
  executed :
      (env : Env) (request : StepRequest) (sender : ℕ) (target : PoolConfig)
      → on_execute (new_worker config).0.pools "execute" request ≡ some target
      → target.resource_class ≡ class
      → receive env (with_request "execute" request sender) s.pool ≡ some t.pool
      → t.finished ≡ s.finished
      → PoolStep config class s t
  cancelled :
      (env : Env) (step_id : String)
      → receive env (with_text "cancel" step_id) s.pool ≡ some t.pool
      → t.finished ≡ s.finished
      → PoolStep config class s t
  finished_one :
      (env : Env)
      → s.finished < length s.pool.spawned
      → receive env (bare "done") s.pool ≡ some t.pool
      → t.finished ≡ suc s.finished
      → PoolStep config class s t

pub data Step (config : WorkerConfig) (w : Cluster) : Cluster → Type 0 where
  at_pool :
      (class : ResourceClass) (u : System)
      → PoolStep config class (w class) u
      → Step config w (with_class class u w)

-- `initialize_pools` spawns the pools, under the flags of that time.
abbrev pub start_cluster : Env → WorkerConfig → Cluster
start_cluster env config class = initial env class (size_of config class)

abbrev pub Reachable : Env → WorkerConfig → Cluster → Type 0
Reachable env config w = ReflTransGenᴰ (Step config) (start_cluster env config) w
