-- ===== src/Tests/PoolRuns.antt =====
-- Pools at work.
use beamline_caf.Base.{
  ℕ, ◌≡◌, ◌≢◌, refl, ℤ, pos, pos_part, ◌≤◌, ◌+◌, ◌-◌, ◌⊎◌, inr, true, false, List, [], ◌∷◌, ◌++◌,
  some, arith, to_lower, same_codes, length, map, ◌↔◌,
}
use beamline_caf.Core.{BlockContext, cpu, value, StepRequest}
use beamline_caf.Flags.{Env, get_env_bool, is_truthy, is_queue_management_enabled}
use beamline_caf.Pool.{
  Pending, PoolActorState, PoolMessage, create_block_executor, with_request, with_text, bare,
  new_pool, process_pending, receive, on_cancel,
}
use beamline_caf.Pool.Load.{IsSound}
use beamline_caf.Pool.Drain.{serve}
use beamline_caf.Pool.Executors.{
  System, message, finish, Reach, here, next, initial, running-le-max_concurrency,
}
use beamline_caf.Pool.Order.{run, known, requests, all_arrivals, run-new_pool-schedule}
use beamline_caf.Pool.Bound.{run-new_pool-le}
use beamline_caf.Observability.Log.{Line}
use beamline_caf.Pool.Lines.{started_line, processing_line}
use beamline_caf.Pool.Accounts.{losses, run-new_pool-losses}
use beamline_caf.Pool.Desk.{Moves, empty_desk, IsSaturated}
use beamline_caf.Pool.Refinement.{desk, Reach-Moves}
use beamline_caf.Pool.Overtaking.{run-new_pool-Sublistᴰ}
use mathlib.Core.List.{Sublistᴰ}
use beamline_caf.Pool.Drain.{process_pending-serve}
use beamline_caf.Pool.Cancel.{Loses, on_cancel-Loses}
use beamline_caf.Scheduler.{new_scheduler, determine_resource_class}
use beamline_caf.Scheduler.Quotas.{pool_for, schedule_all, schedule_all-new_scheduler}
use beamline_caf.Worker.{routed_class}
use beamline_caf.Scheduler.Routing.{Names, has_class_prefix, routed_class-determine_iff}
use beamline_caf.Tests.Data.{
  no_flags, all_flags, context, get_request, put_request, http_request, unknown_request, busy_pool,
  worker_config,
}

process_pending-serve_example :
    process_pending busy_pool ≡ some (serve busy_pool.pending_requests busy_pool)
process_pending-serve_example = process_pending-serve busy_pool

busy_pool-IsSound : IsSound busy_pool
busy_pool-IsSound = record { nonneg = omega arith; bounded = omega arith; busy = inr (omega arith) }

-- Two requests arrive at a pool with one slot, and the first one ends.
abbrev system_of : ℤ → List Pending → List StepRequest → List Line → ℕ → System
system_of load queue spawned logged finished = record {
  pool = record (new_pool no_flags cpu (pos 1)) {
    current_load = load;
    pending_requests = queue;
    spawned = spawned;
    logged = logged;
  };
  finished = finished;
}

asks≢done : (r : StepRequest) (n : ℕ) → with_request "execute" r n ≢ bare "done"
asks≢done r n e = cc

abbrev two_running : System
two_running =
    system_of (pos 1) [] (get_request ∷ put_request ∷ [])
      (started_line cpu get_request ∷ processing_line cpu 0 put_request ∷ []) 1

two_steps : Reach (initial no_flags cpu (pos 1)) two_running
unfolding receive new_pool create_block_executor is_queue_management_enabled get_env_bool
two_steps =
    next
      (next
        (next here (
          message no_flags (with_request "execute" get_request 1) (asks≢done get_request 1) refl
            refl))
        (message no_flags (with_request "execute" put_request 2) (asks≢done put_request 2) refl
          refl))
      (finish no_flags (omega arith) refl refl)

running-le-max_concurrency_example :
    (two_running.pool.current_load ≡ pos (length two_running.pool.spawned - two_running.finished))
    × (length two_running.pool.spawned ≤ two_running.finished + pos_part (pos 1))
    × ((two_running.pool.pending_requests ≡ [])
        ⊎ (two_running.finished + pos_part (pos 1) ≡ length two_running.pool.spawned))
running-le-max_concurrency_example =
    running-le-max_concurrency no_flags cpu (pos 1) two_running two_steps

abbrev messages : Env → List (Env × PoolMessage)
messages env =
    (env, with_request "execute" get_request 1)
    ∷ (env, with_request "execute" unknown_request 2)
    ∷ (env, with_request "execute" put_request 3)
    ∷ (env, bare "done")
    ∷ []

without_queue_management : is_queue_management_enabled no_flags ≡ false
unfolding is_queue_management_enabled get_env_bool
without_queue_management = refl

with_queue_management : is_queue_management_enabled all_flags ≡ true
unfolding is_queue_management_enabled get_env_bool is_truthy to_lower same_codes
with_queue_management = refl

run-new_pool-schedule_example :
    (t : PoolActorState) × (run (messages no_flags) (new_pool no_flags cpu (pos 1)) ≡ some t)
    × (t.spawned ++ known (requests t.pending_requests) ≡ known (all_arrivals (messages no_flags)))
run-new_pool-schedule_example =
    run-new_pool-schedule no_flags cpu (pos 1) (messages no_flags) without_queue_management
      (tt, (tt, (tt, (tt, tt))))

run-new_pool-le_example :
    (t : PoolActorState) × (run (messages all_flags) (new_pool all_flags cpu (pos 1)) ≡ some t)
    × (length t.pending_requests ≤ 1000)
run-new_pool-le_example =
    run-new_pool-le all_flags cpu (pos 1) (messages all_flags) with_queue_management (
      with_queue_management,
      (with_queue_management, (with_queue_management, (with_queue_management, tt))),
    )

on_cancel-Loses_example :
    Loses "s2" busy_pool.pending_requests (on_cancel "s2" busy_pool).pending_requests
    × (record (on_cancel "s2" busy_pool) {
      pending_requests = busy_pool.pending_requests;
      logged = busy_pool.logged;
    }
        ≡ busy_pool)
on_cancel-Loses_example = on_cancel-Loses "s2" busy_pool

schedule_all-new_scheduler_example :
    schedule_all
      ((get_request, context) ∷ (http_request, context) ∷ [])
      (new_scheduler worker_config)
    ≡ some (
        map {A = StepRequest × BlockContext}
          (λ step. value (pool_for worker_config step.0))
          ((get_request, context) ∷ (http_request, context) ∷ []))
schedule_all-new_scheduler_example =
    schedule_all-new_scheduler worker_config ((get_request, context) ∷ (http_request, context) ∷ [])
      (omega arith, omega arith, omega arith)

routed_class-determine_iff_example :
    (routed_class http_request ≡ determine_resource_class http_request)
    ↔ (Names "gpu" http_request ⊎ Names "io" http_request ⊎ (has_class_prefix http_request ≡ false))
routed_class-determine_iff_example = routed_class-determine_iff http_request

-- The second request still waits.
abbrev one_waits : System
one_waits =
    system_of (pos 1) (record { requester = 2; request = put_request } ∷ []) (get_request ∷ [])
      (started_line cpu get_request ∷ []) 0

one_waits_reached : Reach (initial no_flags cpu (pos 1)) one_waits
unfolding receive new_pool create_block_executor is_queue_management_enabled get_env_bool
one_waits_reached =
    next
      (next here (
        message no_flags (with_request "execute" get_request 1) (asks≢done get_request 1) refl
          refl))
      (message no_flags (with_request "execute" put_request 2) (asks≢done put_request 2) refl refl)

Reach-Moves_example :
    Moves (pos_part (pos 1)) empty_desk (desk two_running)
    × IsSaturated (pos_part (pos 1)) (desk two_running)
Reach-Moves_example = Reach-Moves no_flags cpu (pos 1) two_running two_steps

abbrev with_cancellation : List (Env × PoolMessage)
with_cancellation =
    (all_flags, with_request "execute" get_request 1)
    ∷ (no_flags, with_request "execute" put_request 2)
    ∷ (no_flags, with_text "cancel" "s1")
    ∷ (no_flags, with_request "execute" get_request 3)
    ∷ (no_flags, bare "done")
    ∷ []

run-new_pool-Sublistᴰ_example :
    (t : PoolActorState) × (run with_cancellation (new_pool all_flags cpu (pos 1)) ≡ some t)
    × Sublistᴰ
        (t.spawned ++ known (requests t.pending_requests))
        (known (all_arrivals with_cancellation))
run-new_pool-Sublistᴰ_example = run-new_pool-Sublistᴰ all_flags cpu (pos 1) with_cancellation

run-new_pool-losses_example :
    (t : PoolActorState) × (run (messages all_flags) (new_pool all_flags cpu (pos 1)) ≡ some t)
    × (length t.spawned + length t.pending_requests + losses t.logged
        ≡ length (all_arrivals (messages all_flags)))
run-new_pool-losses_example =
    run-new_pool-losses all_flags cpu (pos 1) (messages all_flags) (tt, (tt, (tt, (tt, tt))))
