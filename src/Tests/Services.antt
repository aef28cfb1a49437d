-- ===== src/Tests/Services.antt =====
-- A pool with its executors at work.
use beamline_caf.Base.{
  ◌+◌, ◌≤◌, ◌<◌, ◌≡◌, ◌≢◌, refl, false, pos, pos_part, [], ◌∷◌, ◌++◌, length, All, arith,
  Inevitably,
}
use mathlib.Core.List.{Permᴰ}
use mathlib.Mathlib.Logic.Relation.{ReflTransGenᴰ}
use beamline_caf.Core.{ResourceClass, cpu, gpu, io, failure}
use beamline_caf.Flags.{get_env_bool, is_queue_management_enabled}
use beamline_caf.Executor.{Host}
use beamline_caf.Pool.{PoolMessage, with_request, bare, new_pool}
use beamline_caf.Pool.Order.{IsCancelFree}
use beamline_caf.Service.{Actors, Inside, arrive, new_actors, Reachable}
use beamline_caf.Service.Safety.{requests_of, IsReaction, dones}
use beamline_caf.Service.Progress.{HasFew}
use beamline_caf.Service.Served.{HasRun, accepted, Reachable-runs_everything}
use beamline_caf.Worker.Delivery.{size_of}
use beamline_caf.Worker.Crew
use beamline_caf.Worker.Crew.{Crew, new_crew, sent, route}
use beamline_caf.Worker.Crew.Safety.{HasOwn, Reachable-serves_own}
use beamline_caf.Worker.Crew.Served.{due, HasServed, Reachable-serves_everything}
use beamline_caf.Tests.Data.{no_flags, get_request, http_request, constant_host, worker_config}

abbrev host : Host
host = constant_host (failure "none")

abbrev asks : PoolMessage
asks = with_request "execute" get_request 1

asks≢done : asks ≢ bare "done"
asks≢done e = cc

-- A request has come.
abbrev asked : Actors
asked = record (new_actors no_flags cpu (pos 1)) { mailbox = asks ∷ [] }

asked_reached : Reachable host no_flags cpu (pos 1) asked
asked_reached = ReflTransGenᴰ.tail ReflTransGenᴰ.refl (arrive asks asks≢done)

asked-HasFew : HasFew asked
unfolding new_pool
asked-HasFew = record {
  in_mailbox = ((2, refl, omega arith), tt);
  in_pool = record { queued = tt; begun = tt };
  in_executors = tt;
}

flag_off : is_queue_management_enabled no_flags ≡ false
unfolding is_queue_management_enabled get_env_bool
flag_off = refl

Reachable-runs_everything_example : Inevitably (Inside host) (HasRun host (accepted asked)) asked
Reachable-runs_everything_example =
    Reachable-runs_everything host (0, 0) no_flags cpu (pos 1) asked (omega arith) flag_off
      asked_reached asked-HasFew (tt, tt)

-- A worker to which a request for the class "io" has come, and the same after it has routed it.
abbrev asks_io : PoolMessage
asks_io = with_request "execute" http_request 1

abbrev crew_asked : Crew
crew_asked = record (new_crew no_flags worker_config) { mailbox = asks_io ∷ [] }

abbrev crew_routed : Crew
crew_routed = record {
  mailbox = [];
  actors = λ c. record (new_actors no_flags c (size_of worker_config c)) {
    mailbox = [] ++ sent worker_config asks_io c;
  };
}

crew_asked_reached : Crew.Reachable host no_flags worker_config crew_asked
crew_asked_reached = ReflTransGenᴰ.tail ReflTransGenᴰ.refl (Crew.arrive asks_io)

crew_routed_reached : Crew.Reachable host no_flags worker_config crew_routed
crew_routed_reached = ReflTransGenᴰ.tail crew_asked_reached (Crew.inside (route asks_io [] refl))

Reachable-serves_own_example :
    HasOwn io (crew_routed.actors io)
    × Permᴰ
        (crew_routed.actors io).pool.spawned
        ((crew_routed.actors io).executors ++ requests_of (crew_routed.actors io).ended)
    × All (IsReaction host) (crew_routed.actors io).ended
    × (length (crew_routed.actors io).executors + dones (crew_routed.actors io).mailbox
        ≤ pos_part (size_of worker_config io))
Reachable-serves_own_example =
    Reachable-serves_own host no_flags worker_config crew_routed crew_routed_reached io

slots : (class : ResourceClass) → 0 < pos_part (size_of worker_config class)
slots cpu = omega arith
slots gpu = omega arith
slots io = omega arith

fresh :
    (class : ResourceClass)
    → HasFew (crew_asked.actors class) × All IsCancelFree (crew_asked.actors class).mailbox
unfolding new_pool
fresh class = (
  record { in_mailbox = tt; in_pool = record { queued = tt; begun = tt }; in_executors = tt },
  tt,
)

Reachable-serves_everything_example :
    Inevitably
      (Crew.Inside host worker_config)
      (HasServed host (λ class. due class crew_asked))
      crew_asked
Reachable-serves_everything_example =
    Reachable-serves_everything host (0, 0) no_flags worker_config crew_asked slots flag_off
      crew_asked_reached ((1, refl, omega arith), tt) (tt, tt) fresh
