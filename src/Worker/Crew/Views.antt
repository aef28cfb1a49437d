-- ===== src/Worker/Crew/Views.antt =====
-- What the worker does to each pool is what a pool of its own can see.
use beamline_caf.Base.{◌≢◌, subst, sym, List, [], ◌∷◌, ◌++◌, append-nil, append_assoc, All, ℤ}
use mathlib.Mathlib.Logic.Relation.{ReflTransGenᴰ}
use beamline_caf.Core.{WorkerConfig, ResourceClass}
use beamline_caf.Flags.{Env}
use beamline_caf.Executor.{Host}
use beamline_caf.Pool.{PoolMessage, bare}
use beamline_caf.Service
use beamline_caf.Service.{Actors}
use beamline_caf.Worker.Delivery.{size_of}
use beamline_caf.Worker.Family.{with_class_ind}
use beamline_caf.Worker.Crew.{sent, Crew, route, move, inside, arrive, Reachable}
use beamline_caf.Worker.Crew.Routes.{sent-not_done}

module _ (h : Host) (env : Env) (class : ResourceClass) (size : ℤ) where
  Reachable-arrivals :
      (s : Actors) (ms : List PoolMessage)
      → All (λ m. m ≢ bare "done") ms
      → Service.Reachable h env class size s
      → Service.Reachable h env class size (record s { mailbox = s.mailbox ++ ms })
  Reachable-arrivals s [] others r =
      subst (λ l. Service.Reachable h env class size (record s { mailbox = l }))
        (sym (append-nil s.mailbox)) r
  Reachable-arrivals s (m ∷ ms) (other, others) r =
      subst (λ l. Service.Reachable h env class size (record s { mailbox = l }))
        (append_assoc s.mailbox (m ∷ []) ms)
        (Reachable-arrivals (record s { mailbox = s.mailbox ++ m ∷ [] }) ms others
          (ReflTransGenᴰ.tail r (Service.arrive m other)))

-- In every state of the whole worker, each pool with its executors is in a state that it can reach by
-- itself, with the class and the size of its configuration, from messages that are not a "done".
pub Reachable-Reachable :
    (h : Host) (env : Env) (config : WorkerConfig) (s : Crew)
    → Reachable h env config s
    → (class : ResourceClass)
    → Service.Reachable h env class (size_of config class) (s.actors class)
Reachable-Reachable h env config s ReflTransGenᴰ.refl class = ReflTransGenᴰ.refl
Reachable-Reachable h env config s (ReflTransGenᴰ.tail {b = t} r (arrive m)) class =
    Reachable-Reachable h env config t r class
Reachable-Reachable h env config s (ReflTransGenᴰ.tail {b = t} r (inside (route m rest e))) class =
    Reachable-arrivals h env class (size_of config class) (t.actors class) (sent config m class)
      (sent-not_done config class m) (Reachable-Reachable h env config t r class)
Reachable-Reachable h env config s (ReflTransGenᴰ.tail {b = t} r (inside (move c u i))) class =
    with_class_ind (λ k a. Service.Reachable h env k (size_of config k) a) c u t.actors
      (ReflTransGenᴰ.tail (Reachable-Reachable h env config t r c) (Service.inside i))
      (Reachable-Reachable h env config t r) class
