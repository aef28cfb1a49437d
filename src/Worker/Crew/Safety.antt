-- ===== src/Worker/Crew/Safety.antt =====
-- processor/src/worker_actor.cpp, the whole worker: what holds in every state of its pools.
use beamline_caf.Base.{◌≡◌, ◌≤◌, ◌+◌, sym, pos_part, ◌++◌, All, length}
use mathlib.Core.List.{Permᴰ}
use mathlib.Mathlib.Logic.Relation.{ReflTransGenᴰ}
use beamline_caf.Core.{WorkerConfig, ResourceClass}
use beamline_caf.Flags.{Env}
use beamline_caf.Executor.{Host}
use beamline_caf.Pool.{PoolMessage, new_pool}
use beamline_caf.Pool.Everywhere.{Brings}
use beamline_caf.Service.{Actors}
use beamline_caf.Service.Everywhere.{HasAll, Inside-HasAll, HasAll-append}
use beamline_caf.Service.Safety.{requests_of, IsReaction, dones, Reachable-each_once}
use beamline_caf.Worker.{routed_class}
use beamline_caf.Worker.Delivery.{size_of}
use beamline_caf.Worker.Family.{is_class-eq, with_class_ind}
use beamline_caf.Worker.Crew.{sent, Crew, route, move, inside, arrive, Reachable}
use beamline_caf.Worker.Crew.Routes.{sent_ind}
use beamline_caf.Worker.Crew.Views.{Reachable-Reachable}

-- What is on its way to a pool, waits there, and has started there is of the given class.
abbrev pub HasOwn : ResourceClass → Actors → Type 0
HasOwn class = HasAll (λ r. routed_class r ≡ class)

sent-own :
    (config : WorkerConfig) (class : ResourceClass) (m : PoolMessage)
    → All (Brings (λ r. routed_class r ≡ class)) (sent config m class)
sent-own config class m =
    sent_ind (λ _. All (Brings (λ r. routed_class r ≡ class))) config class m (λ _ _. tt)
      (λ request sender own. (sym (is_class-eq class (routed_class request) own), tt))
      (λ step_id. (tt, tt))

Reachable-HasOwn :
    {h : Host} (env : Env) (config : WorkerConfig) (s : Crew)
    → Reachable h env config s
    → (class : ResourceClass) → HasOwn class (s.actors class)
unfolding new_pool
Reachable-HasOwn env config s ReflTransGenᴰ.refl class = record {
  in_mailbox = tt;
  in_pool = record { queued = tt; begun = tt };
  in_executors = tt;
}
Reachable-HasOwn env config s (ReflTransGenᴰ.tail {b = t} r (arrive m)) class =
    Reachable-HasOwn env config t r class
Reachable-HasOwn env config s (ReflTransGenᴰ.tail {b = t} r (inside (route m rest e))) class =
    HasAll-append (λ q. routed_class q ≡ class) (t.actors class) (sent config m class)
      (Reachable-HasOwn env config t r class) (sent-own config class m)
Reachable-HasOwn env config s (ReflTransGenᴰ.tail {b = t} r (inside (move c u i))) class =
    with_class_ind HasOwn c u t.actors
      (Inside-HasAll (λ q. routed_class q ≡ c) i (Reachable-HasOwn env config t r c))
      (Reachable-HasOwn env config t r) class

-- In every state of the whole worker, whatever messages come to it and however the steps of the worker,
-- its pools and their executors interleave: what is on its way to a pool, waits there or has started
-- there is of its class; each request that a pool has started is the one of an executor that has not
-- run yet or has run, exactly once, with a reaction that the handler of the executor really has to it;
-- and the executors that have not run and the reports that the pool has not handled are together at
-- most as many as the configuration gives that class.
pub Reachable-serves_own :
    (h : Host) (env : Env) (config : WorkerConfig) (s : Crew)
    → Reachable h env config s
    → (class : ResourceClass)
    → HasOwn class (s.actors class)
      × Permᴰ
          (s.actors class).pool.spawned
          ((s.actors class).executors ++ requests_of (s.actors class).ended)
      × All (IsReaction h) (s.actors class).ended
      × (length (s.actors class).executors + dones (s.actors class).mailbox
          ≤ pos_part (size_of config class))
Reachable-serves_own h env config s r class =
    let (once, really, few) =
      Reachable-each_once h env class (size_of config class) (s.actors class)
        (Reachable-Reachable h env config s r class) in
    (Reachable-HasOwn env config s r class, once, really, few)
