-- ===== src/Worker/Classes.antt =====
-- The classes of the requests in each pool.
use beamline_caf.Base.{◌+◌, ◌≤◌, ◌≡◌, sym, ◌∙◌, ap, pos_part, some, length}
use mathlib.Mathlib.Logic.Relation.{ReflTransGenᴰ}
use beamline_caf.Core.{WorkerConfig, StepRequest, ResourceClass}
use beamline_caf.Flags.{Env}
use beamline_caf.Pool.{PoolActorState, with_request, with_text, bare, new_pool}
use beamline_caf.Pool.Cases.{of_result}
use beamline_caf.Pool.Everywhere.{IsAll, receive-IsAll}
use beamline_caf.Pool.Executors.{
  System, message, finish, Reach, here, next, running-le-max_concurrency, initial,
}
use beamline_caf.Worker
use beamline_caf.Worker.{PoolConfig, routed_class, new_worker}
use beamline_caf.Worker.Delivery.{size_of, pool, on_execute-new_worker}
use beamline_caf.Worker.Family.{with_class_ind}
use beamline_caf.Worker.Cluster.{
  Cluster, PoolStep, executed, cancelled, finished_one, at_pool, Reachable,
}

-- What waits in the pool and what has started there are of the given class.
abbrev pub IsOfClass : ResourceClass → PoolActorState → Type 0
IsOfClass class = IsAll (λ r. routed_class r ≡ class)

routed_to :
    (config : WorkerConfig) (request : StepRequest) (target : PoolConfig)
    → Worker.on_execute (new_worker config).0.pools "execute" request ≡ some target
    → routed_class request ≡ target.resource_class
routed_to config request target e =
    let h : some (pool config (routed_class request)) ≡ some target =
      sym (on_execute-new_worker config request "").0 ∙ e in
    let same : pool config (routed_class request) ≡ target = cc in ap (λ p. p.resource_class) same

PoolStep-IsOfClass :
    {config : WorkerConfig} {class : ResourceClass} {s t : System}
    → PoolStep config class s t
    → IsOfClass class s.pool
    → IsOfClass class t.pool
PoolStep-IsOfClass {config} {class} {s} (executed env request sender target sent named e same) v =
    of_result {P = IsOfClass class}
      (receive-IsAll (λ r. routed_class r ≡ class) env (with_request "execute" request sender)
        s.pool (routed_to config request target sent ∙ named) v)
      e
PoolStep-IsOfClass {config} {class} {s} (cancelled env step_id e same) v =
    of_result {P = IsOfClass class}
      (receive-IsAll (λ r. routed_class r ≡ class) env (with_text "cancel" step_id) s.pool tt v) e
PoolStep-IsOfClass {config} {class} {s} (finished_one env running e one) v =
    of_result {P = IsOfClass class}
      (receive-IsAll (λ r. routed_class r ≡ class) env (bare "done") s.pool tt v) e

PoolStep-Reach :
    {config : WorkerConfig} {class : ResourceClass} {a s t : System}
    → PoolStep config class s t
    → Reach a s
    → Reach a t
PoolStep-Reach (executed env request sender target sent named e same) r =
    next r (message env (with_request "execute" request sender) (λ d. cc) e same)
PoolStep-Reach (cancelled env step_id e same) r =
    next r (message env (with_text "cancel" step_id) (λ d. cc) e same)
PoolStep-Reach (finished_one env running e one) r = next r (finish env running e one)

abbrev Good : Env → WorkerConfig → ResourceClass → System → Type 0
Good env config class s =
    IsOfClass class s.pool × Reach (initial env class (size_of config class)) s

Reachable-Good :
    (env : Env) (config : WorkerConfig) (w : Cluster)
    → Reachable env config w
    → (class : ResourceClass) → Good env config class (w class)
Reachable-Good env config w ReflTransGenᴰ.refl class =
    (unfold new_pool in record { queued = tt; begun = tt }, here)
Reachable-Good env config w (ReflTransGenᴰ.tail {b = v} r (at_pool moved u st)) class =
    let old = Reachable-Good env config v r in
    with_class_ind (Good env config) moved u v
      (PoolStep-IsOfClass st (old moved).0, PoolStep-Reach st (old moved).1) old class

-- In every state of a worker with its pools, whatever the order in which they handle requests,
-- cancellations and ends, each pool holds only requests that are routed to its class, waiting or
-- started, and runs at most as many executors as the configuration gives that class.
pub Reachable-IsOfClass :
    (env : Env) (config : WorkerConfig) (w : Cluster)
    → Reachable env config w
    → (class : ResourceClass)
    → IsOfClass class (w class).pool
      × (length (w class).pool.spawned ≤ (w class).finished + pos_part (size_of config class))
Reachable-IsOfClass env config w r class =
    let (v, reach) = Reachable-Good env config w r class in
    (v, (running-le-max_concurrency env class (size_of config class) (w class) reach).1)
