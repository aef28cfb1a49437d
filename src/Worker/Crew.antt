-- ===== src/Worker/Crew.antt =====
-- processor/src/worker_actor.cpp, the whole worker: its mailbox, its three pools with theirs, and all
-- their executors. Each actor handles one message at a time; a mailbox keeps the order in which
-- messages reach it, and nothing else orders what different actors do.
pub mod Routes
pub mod Views
pub mod Safety
pub mod Work
pub mod Served
use beamline_caf.Base.{List, [], ◌∷◌, ◌++◌, map, String, Option, none, some, ◌≡◌, if◌then◌else◌}
use mathlib.Mathlib.Logic.Relation.{ReflTransGenᴰ}
use beamline_caf.Core.{WorkerConfig, ResourceClass}
use beamline_caf.Flags.{Env}
use beamline_caf.Executor.{Host}
use beamline_caf.Pool.{PoolMessage, with_request, with_text, bare}
use beamline_caf.Service
use beamline_caf.Service.{Actors, new_actors}
use beamline_caf.Worker.{PoolConfig, Pools, new_worker, on_execute, on_cancel}
use beamline_caf.Worker.Delivery.{size_of}
use beamline_caf.Worker.Family.{with_class, is_class}

-- A message goes on as it came, to the pool that the handler of "execute" names, if any.
unfoldable pub delegated : Option PoolConfig → PoolMessage → List (PoolConfig × PoolMessage)
delegated none m = []
delegated (some target) m = (target, m) ∷ []

unfoldable pub broadcast : String → List (PoolConfig × String) → List (PoolConfig × PoolMessage)
broadcast atom [] = []
broadcast atom ((target, step_id) ∷ es) = (target, with_text atom step_id) ∷ broadcast atom es

-- What the handlers of the worker send, and to which pools. "metrics" sends nothing, and neither does
-- "context", whose message has no form here.
unfoldable pub sends : Pools → PoolMessage → List (PoolConfig × PoolMessage)
sends pools (with_request atom request sender) =
    delegated (on_execute pools atom request) (with_request atom request sender)
sends pools (with_text atom step_id) = broadcast atom (on_cancel pools atom step_id)
sends pools (bare atom) = []

-- What reaches the mailbox of the pool of a class.
unfoldable pub addressed : ResourceClass → List (PoolConfig × PoolMessage) → List PoolMessage
addressed class [] = []
addressed class ((target, m) ∷ ms) =
    if is_class class target.resource_class then m ∷ addressed class ms else addressed class ms

abbrev pub sent : WorkerConfig → PoolMessage → ResourceClass → List PoolMessage
sent config m class = addressed class (sends (new_worker config).0.pools m)

pub record Crew : Type 0 where
  pub mailbox : List PoolMessage
  pub actors : ResourceClass → Actors

-- The worker handles the first message of its mailbox, or a pool or an executor moves.
pub data Inside (h : Host) (config : WorkerConfig) (s : Crew) : Crew → Type 0 where
  route :
      (m : PoolMessage) (rest : List PoolMessage)
      → s.mailbox ≡ m ∷ rest
      → Inside h config s (record {
        mailbox = rest;
        actors = λ c. record (s.actors c) { mailbox = (s.actors c).mailbox ++ sent config m c };
      })
  move :
      (class : ResourceClass) (u : Actors)
      → Service.Inside h (s.actors class) u
      → Inside h config s (record s { actors = with_class class u s.actors })

-- The same, and the arrival of any message from outside.
pub data Step (h : Host) (config : WorkerConfig) (s : Crew) : Crew → Type 0 where
  inside : {t : Crew} → Inside h config s t → Step h config s t
  arrive : (m : PoolMessage) → Step h config s (record s { mailbox = s.mailbox ++ m ∷ [] })

-- `initialize_pools` spawns the pools, under the flags of that time.
abbrev pub new_crew : Env → WorkerConfig → Crew
new_crew env config = record { mailbox = []; actors = λ c. new_actors env c (size_of config c) }

abbrev pub Reachable : Host → Env → WorkerConfig → Crew → Type 0
Reachable h env config = ReflTransGenᴰ (Step h config) (new_crew env config)
