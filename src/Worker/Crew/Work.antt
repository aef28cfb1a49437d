-- ===== src/Worker/Crew/Work.antt =====
-- The work that is left in the whole worker.
use beamline_caf.Base.{ℕ, ◌+◌, ◌<◌, ap, List, [], ◌∷◌, arith}
use beamline_caf.Core.{WorkerConfig, cpu, gpu, io}
use beamline_caf.Executor.{Host}
use beamline_caf.Pool.{PoolMessage}
use beamline_caf.Service.Progress.{weigh, weigh-append, work, Inside-work}
use beamline_caf.Worker.Family.{total, total-with_class}
use beamline_caf.Worker.Crew.{sent, Crew, Inside, route, move}

-- What the worker's mailbox adds to the work of the pools, and one for each of its messages.
unfoldable pub load : WorkerConfig → List PoolMessage → ℕ
load config [] = 0
load config (m ∷ ms) = 1 + total (λ c. weigh (sent config m c)) + load config ms

abbrev pub crew_work : WorkerConfig → Crew → ℕ
crew_work config s = load config s.mailbox + total (λ c. work (s.actors c))

pub Inside-crew_work :
    {h : Host} {config : WorkerConfig} {s t : Crew}
    → Inside h config s t
    → crew_work config t < crew_work config s
unfolding load
Inside-crew_work {h} {config} {s} (route m rest e) = omega (
  arith,
  ap (load config) e,
  weigh-append (s.actors cpu).mailbox (sent config m cpu),
  weigh-append (s.actors gpu).mailbox (sent config m gpu),
  weigh-append (s.actors io).mailbox (sent config m io),
)
Inside-crew_work {h} {config} {s} (move class u i) =
    omega (arith, total-with_class work class u s.actors (Inside-work i))
