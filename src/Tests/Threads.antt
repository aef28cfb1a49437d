-- ===== src/Tests/Threads.antt =====
-- A pool of two threads at work, and requests to stubs.
use beamline_caf.Base.{
  Inevitably, ℕ, ◌+◌, ◌≡◌, refl, pos, pos_part, arith, false, some, none, [], ◌∷◌, lookup, all,
  is_some,
}
use beamline_caf.Runtime.Types.{StepRequest, io}
use beamline_caf.Runtime.Threads.{
  ActorPool, Reachable, fresh, after, Work, work, go, call, destroy, new_actor_pool, submit, turn,
  begin_stop, copies, thread,
}
use beamline_caf.Runtime.Service.{IsServed, Reachable-IsServed}
use beamline_caf.Runtime.Shutdown.{AtRest, Reachable-Inevitably}
use beamline_caf.Runtime.Stubs.{fs_blob_put, stub_executor}
use beamline_caf.Runtime.Schedule.{Pools, run_task}
use beamline_caf.Runtime.Callbacks.{required, is_done, run_task-is_done}

-- Two tasks are submitted, the first is taken, and the destructor begins.
abbrev stopping_pool : ActorPool ℕ
stopping_pool = begin_stop (turn 0 (submit 8 (submit 7 (new_actor_pool (pos 2)))))

stopping_pool_reached : Reachable (pos 2) stopping_pool
unfolding new_actor_pool submit turn copies thread
stopping_pool_reached =
    after (destroy refl)
      (after (work (go 0 refl)) (after (call 8 refl) (after (call 7 refl) fresh)))

Reachable-IsServed_example : IsServed (pos_part (pos 2)) stopping_pool
Reachable-IsServed_example = Reachable-IsServed (pos 2) stopping_pool stopping_pool_reached

Reachable-Inevitably_example : Inevitably Work AtRest stopping_pool
Reachable-Inevitably_example =
    Reachable-Inevitably (pos 2) stopping_pool (omega arith) stopping_pool_reached

abbrev put_request : StepRequest
put_request = record {
  type = "fs.blob_put";
  inputs = ("path", "/tmp/a") ∷ [];
  resources = record { cls = io; memory_mb = pos 64; concurrency = pos 1 };
  timeout_ms = pos 1000;
  retry = record { max_retries = pos 0; backoff_ms = pos 0 };
  guardrails = [];
  ctx = record {
    tenant_id = "t";
    trace_id = "";
    flow_id = "";
    step_id = "";
    sandbox = false;
    rbac_scopes = [];
  };
}

abbrev tick : ℕ → ℕ × ℕ
tick w = (w, w + 1)

abbrev pools : Pools ℕ
pools = record { cpu_pool = none; gpu_pool = none; io_pool = some (new_actor_pool (pos 1)) }

run_task-is_done_example :
    is_done
      (run_task
        (record { executor = stub_executor tick fs_blob_put; request = put_request; callback = 3 })
        0).0
    ≡ all (λ key. is_some (lookup key put_request.inputs)) (required fs_blob_put)
run_task-is_done_example = run_task-is_done tick fs_blob_put put_request 3 0
