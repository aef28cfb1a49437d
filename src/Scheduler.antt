-- ===== src/Scheduler.antt =====
-- processor/src/scheduler.cpp, `Scheduler`: the choice of a pool under the quotas of a tenant.
pub mod Quotas
pub mod Routing
use beamline_caf.Base.{
  ℕ, suc, ◌+◌, ◌-◌, ◌*◌, ℤ, pos, negsuc, ltb_ℤ, ltb, leb, ◌^◌, Bool, true, false, ◌||◌, List, [],
  ◌∷◌, String, ◌=ˢ◌, Option, none, some, lookup, insert, find_is_zero, map, or_else, if◌then◌else◌,
}
use beamline_caf.Core.{
  WorkerConfig, StepRequest, BlockContext, ResourceClass, cpu, gpu, io, Expected, value, failure,
}
use beamline_caf.Worker.{Pools, PoolConfig, initialize_pools}

-- What a tenant has used; a class that was never touched is at 0.
pub record Usage : Type 0 where
  pub cpu_usage : ℤ
  pub gpu_usage : ℤ
  pub io_usage : ℤ

abbrev pub no_usage : Usage
no_usage = record { cpu_usage = pos 0; gpu_usage = pos 0; io_usage = pos 0 }

pub record Scheduler : Type 0 where
  pub config : WorkerConfig
  pub resource_pools : Pools
  pub tenant_usage : List (String × Usage)

-- The three pools are made as the worker makes them.
abbrev initialize_resource_pools : WorkerConfig → Pools
initialize_resource_pools = initialize_pools

-- The constructor.
unfoldable pub new_scheduler : WorkerConfig → Scheduler
unfolding initialize_pools
new_scheduler config = record {
  config = config;
  resource_pools = initialize_resource_pools config;
  tenant_usage = [];
}

unfoldable pub determine_resource_class : StepRequest → ResourceClass
determine_resource_class request =
    let by_type : ResourceClass =
      if find_is_zero request.type "http." || find_is_zero request.type "fs."
      then io
      else if find_is_zero request.type "ai." || find_is_zero request.type "media."
      then gpu
      else cpu in
    elim (lookup "class" request.resources) [
      | none ↦ by_type
      | some resource_class ↦
          if resource_class =ˢ "gpu" then gpu else if resource_class =ˢ "io" then io else by_type
    ]

-- Megabytes as bytes, in an `int64_t`; `none` is the overflow.
abbrev pub in_bytes : ℤ → Option ℤ
in_bytes (pos n) = if ltb (n * 1048576) (2 ^ 63) then some (pos (n * 1048576)) else none
in_bytes (negsuc n) =
    if leb (suc n * 1048576) (2 ^ 63) then some (negsuc (n * 1048576 + 1048575)) else none

-- Reading `tenant_usage_[tenant_id]` makes an entry for the tenant. Both quotas are held against
-- the same counter. `none` is undefined arithmetic.
unfoldable pub check_tenant_quotas :
    String → ResourceClass → Scheduler → Option (Expected (Unit {0}) × Scheduler)
check_tenant_quotas tenant_id resource_class s =
    let usage : Usage = or_else (lookup tenant_id s.tenant_usage) no_usage in
    let s' : Scheduler = record s { tenant_usage = insert tenant_id usage s.tenant_usage } in
    elim (in_bytes s.config.max_memory_per_tenant_mb) [
      | none ↦ none
      | some limit ↦ some (
          if ltb_ℤ limit usage.cpu_usage
          then (failure "Tenant memory quota exceeded", s')
          else if ltb_ℤ s.config.max_cpu_time_per_tenant_ms usage.cpu_usage
          then (failure "Tenant CPU time quota exceeded", s')
          else (value tt, s'))
    ]

-- `resource_pools_[name]`.
unfoldable pub get_pool_for_resource : ResourceClass → Scheduler → Option PoolConfig
get_pool_for_resource cpu s = lookup "cpu" s.resource_pools
get_pool_for_resource gpu s = lookup "gpu" s.resource_pools
get_pool_for_resource io s = lookup "io" s.resource_pools

abbrev pub or_no_pool : Option PoolConfig → Expected PoolConfig
or_no_pool none = failure "No available pool for resource class"
or_no_pool (some pool) = value pool

-- What follows the check of the quotas.
abbrev pub pool_after :
    ResourceClass
    → Option (Expected (Unit {0}) × Scheduler)
    → Option (Expected PoolConfig × Scheduler)
pool_after resource_class none = none
pool_after resource_class (some (failure e, s)) = some (failure e, s)
pool_after resource_class (some (value _, s)) =
    some (or_no_pool (get_pool_for_resource resource_class s), s)

unfoldable pub schedule_step :
    StepRequest → BlockContext → Scheduler → Option (Expected PoolConfig × Scheduler)
schedule_step request context s =
    let resource_class : ResourceClass = determine_resource_class request in
    pool_after resource_class (check_tenant_quotas context.tenant_id resource_class s)

-- Every pool is sent the cancellation.
unfoldable pub cancel_step : String → Scheduler → List (PoolConfig × String)
cancel_step step_id s = map (λ p. (p.1, step_id)) s.resource_pools

unfoldable pub get_pool_metrics : Scheduler → List (String × ℤ)
unfolding insert
get_pool_metrics s =
    insert "io_pool_load" (pos 0)
      (insert "gpu_pool_load" (pos 0) (insert "cpu_pool_load" (pos 0) []))
