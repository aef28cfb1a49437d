-- ===== src/Main/Ends.antt =====
-- How the process starts and ends.
use beamline_caf.Base.{
  Bool, true, false, if◌then◌else◌, ◌≡◌, refl, ap, ◌∙◌, none, some, Option, inl, inr, Bool-cases,
  ◌⊎◌,
}
use beamline_caf.Flags.{Env}
use beamline_caf.Observability.Endpoint.{
  Server, Calls, IsConsistent, new_server, start_health_endpoint, start_metrics_endpoint,
  stop_endpoint, stop-new_server, stop_unwoken,
}
use beamline_caf.Main.{Exit, Process, destroyed, Wakes, Ending, blocked, ended, joined, left}

-- A server that runs, and whose thread does not wake when its socket is closed.
abbrev pub IsStuck : Bool → Server → Type 0
IsStuck wakes s = (s.running ≡ true) × (wakes ≡ false)

-- The process has gone, with both servers stopped, or a server is stuck.
abbrev Leaves : Wakes → Process → Ending Process → Type 0
Leaves wakes p e =
    ((q : Process) × (e ≡ ended q) × (q.health ≡ new_server) × (q.metrics ≡ new_server))
    ⊎ ((e ≡ blocked) × (IsStuck wakes.health p.health ⊎ IsStuck wakes.metrics p.metrics))

stop-cases :
    (wakes : Bool) (s : Server)
    → IsConsistent s
    → (stop_endpoint wakes s ≡ some new_server) ⊎ ((stop_endpoint wakes s ≡ none) × IsStuck wakes s)
stop-cases true s h = inl (stop-new_server s h)
stop-cases false s h = elim (Bool-cases s.running) [
  | inl up ↦ inr (stop_unwoken s h ∙ ap (λ b. if b then none else some new_server) up, (up, refl))
  | inr down ↦ inl (stop_unwoken s h ∙ ap (λ b. if b then none else some new_server) down)
]

leaves :
    (wakes : Wakes) (p : Process)
    → IsConsistent p.health
    → IsConsistent p.metrics
    → Leaves wakes p (left wakes (some p))
unfolding destroyed
leaves wakes p health metrics = elim (stop-cases wakes.health p.health health) [
  | inr (never, stuck) ↦ inr (goes none (rw (destroyed, never) refl), inl stuck)
  | inl stopped ↦ elim (stop-cases wakes.metrics p.metrics metrics) [
    | inr (never, stuck) ↦ inr (goes none (rw (destroyed, stopped, never) refl), inr stuck)
    | inl stopped' ↦
        inl (gone, goes (some gone) (rw (destroyed, stopped, stopped') refl), refl, refl)
  ]
]
  where
    goes : (o : Option Process) → destroyed wakes p ≡ o → joined (destroyed wakes p) ≡ joined o
    goes o e = ap joined e

    gone : Process
    gone = record p { health = new_server; metrics = new_server }

-- A server that the process has started for good is stuck.
abbrev pub IsHeld : Env → Calls → Calls → Wakes → Type 0
IsHeld env health_calls metrics_calls wakes =
    IsStuck wakes.health (start_health_endpoint health_calls new_server)
    ⊎ IsStuck wakes.metrics (start_metrics_endpoint env metrics_calls new_server)

abbrev Comes : Env → Calls → Calls → Wakes → Ending Process → Type 0
Comes env health_calls metrics_calls wakes e =
    ((q : Process) × (e ≡ ended q) × (q.health ≡ new_server) × (q.metrics ≡ new_server))
    ⊎ ((e ≡ blocked) × IsHeld env health_calls metrics_calls wakes)

-- The command line is good: the process has run and stopped.
abbrev pub HasStopped : Exit → Type 0
HasStopped x =
    (p : Process) × (x.process ≡ some p) × (p.health ≡ new_server) × (p.metrics ≡ new_server)
