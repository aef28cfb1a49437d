-- ===== src/Pool/Gauges.antt =====
-- processor/src/worker_actor.cpp, `PoolActorState::update_queue_metrics`: what a pool publishes.
use beamline_caf.Base.{
  ℕ, ◌≡◌, ℤ, pos, pos_part, ◌≤ℤ◌, not, List, [], ◌∷◌, String, length, All, arith, Bool-cases,
  if◌then◌else◌, ◌⊎◌, inl, inr,
}
use beamline_caf.Flags.{Env, is_observability_metrics_enabled}
use beamline_caf.Observability.Metrics.{resource_name}
use beamline_caf.Pool.{PoolActorState}
use beamline_caf.Pool.Load.{IsSound}

-- The two setters that it calls, with their arguments.
pub record Gauges : Type 0 where
  pub resource_pool : String
  pub queue_depth : ℤ
  pub active_tasks : ℤ

unfoldable pub get_queue_depth : PoolActorState → ℕ
get_queue_depth s = length s.pending_requests

unfoldable pub update_queue_metrics : Env → PoolActorState → List Gauges
unfolding get_queue_depth
update_queue_metrics env s =
    let published : Gauges = record {
      resource_pool = resource_name s.resource_class;
      queue_depth = pos (get_queue_depth s);
      active_tasks = s.current_load;
    } in
    if not (is_observability_metrics_enabled env) then [] else published ∷ []

-- Between messages a pool never publishes a waiting request beside a free slot, nor more active tasks
-- than slots.
pub update_queue_metrics-IsSound :
    (env : Env) (s : PoolActorState)
    → IsSound s
    → All
        (λ g.
          (pos 0 ≤ℤ g.active_tasks)
          × (g.active_tasks ≤ℤ pos (pos_part s.max_concurrency))
          × ((g.queue_depth ≡ pos 0) ⊎ (s.max_concurrency ≤ℤ g.active_tasks)))
        (update_queue_metrics env s)
unfolding update_queue_metrics
update_queue_metrics-IsSound env s v = elim (Bool-cases (is_observability_metrics_enabled env)) [
  | inr off ↦ rw off tt
  | inl on ↦ rw on ((v.nonneg, v.bounded, ground (arith, v.busy)), tt)
]
