-- ===== src/Scheduler/Quotas.antt =====
-- The quotas of the tenants over a history of requests.
use beamline_caf.Base.{
  ℤ, pos, negsuc, ◌≤ℤ◌, ltb_ℤ, ◌*◌, Option, none, ◌≡◌, refl, ap, ap₂, ◌∙◌, false, List, [], ◌∷◌,
  map, String, ◌=ˢ◌, some, All, lookup, insert, or_else, arith, Bool-cases, inl, inr,
}
use beamline_caf.Core.{
  WorkerConfig, StepRequest, BlockContext, ResourceClass, cpu, gpu, io, Expected, value,
}
use beamline_caf.Worker.{PoolConfig, initialize_pools}
use beamline_caf.Scheduler.{
  Usage, no_usage, Scheduler, new_scheduler, determine_resource_class, in_bytes,
  check_tenant_quotas, get_pool_for_resource, schedule_step, or_no_pool, pool_after,
}

-- The size that the configuration gives to a class of resources.
abbrev pub size_of : WorkerConfig → ResourceClass → ℤ
size_of config cpu = config.cpu_pool_size
size_of config gpu = config.gpu_pool_size
size_of config io = config.io_pool_size

pub initialize_pools-lookup :
    (config : WorkerConfig) (c : ResourceClass) (s : Scheduler)
    → s.resource_pools ≡ initialize_pools config
    → get_pool_for_resource c s
      ≡ some (record { resource_class = c; max_concurrency = size_of config c })
unfolding get_pool_for_resource initialize_pools lookup insert
initialize_pools-lookup config cpu s e = rw e
initialize_pools-lookup config gpu s e = rw e
initialize_pools-lookup config io s e = rw e

abbrev IsUnused : List (String × Usage) → Type 0
IsUnused = All (λ e. e.1 ≡ no_usage)

lookup-IsUnused :
    (t : String) (m : List (String × Usage)) → IsUnused m → or_else (lookup t m) no_usage ≡ no_usage
unfolding lookup
lookup-IsUnused t [] h = refl
lookup-IsUnused t ((k, u) ∷ m) (h, hs) = ground (arith, lookup-IsUnused t m hs)

insert-IsUnused :
    (t : String) (u : Usage) (m : List (String × Usage))
    → u ≡ no_usage
    → IsUnused m
    → IsUnused (insert t u m)
unfolding insert
insert-IsUnused t u [] e h = (e, tt)
insert-IsUnused t u ((k, v) ∷ m) e (h, hs) = elim (Bool-cases (k =ˢ t)) [
  | inl same ↦ rw same (e, hs)
  | inr other ↦ rw other (h, insert-IsUnused t u m e hs)
]

-- The scheduler as the constructor makes it, but for the entries that reads have made.
pub record IsFresh (config : WorkerConfig) (s : Scheduler) : Type 0 where
  pub same_config : s.config ≡ config
  pub same_pools : s.resource_pools ≡ initialize_pools config
  pub unused : All (λ e. e.1 ≡ no_usage) s.tenant_usage

-- No limit is negative, and the memory's is below 2^43 MB, so that its bytes fit.
abbrev pub AllowsNothingUsed : WorkerConfig → Type 0
AllowsNothingUsed config =
    (pos 0 ≤ℤ config.max_memory_per_tenant_mb)
    × (config.max_memory_per_tenant_mb ≤ℤ pos 8796093022207)
    × (pos 0 ≤ℤ config.max_cpu_time_per_tenant_ms)

abbrev pub pool_for : WorkerConfig → StepRequest → PoolConfig
pool_for config request =
    let c : ResourceClass = determine_resource_class request in
    record { resource_class = c; max_concurrency = size_of config c }

touched : String → Scheduler → Scheduler
touched t s = record s {
  tenant_usage = insert t (or_else (lookup t s.tenant_usage) no_usage) s.tenant_usage;
}

within_memory :
    (a : ℤ)
    → pos 0 ≤ℤ a
    → a ≤ℤ pos 8796093022207
    → (b : ℤ) × (in_bytes a ≡ some b) × (ltb_ℤ b (pos 0) ≡ false)
within_memory (pos n) h small = (pos (n * 1048576), ground arith, ground arith)
within_memory (negsuc n) h small = absurd (omega arith)

within_time : (a : ℤ) → pos 0 ≤ℤ a → ltb_ℤ a (pos 0) ≡ false
within_time a h = ground arith

check-IsFresh :
    (config : WorkerConfig) (t : String) (c : ResourceClass) (s : Scheduler)
    → AllowsNothingUsed config
    → IsFresh config s
    → check_tenant_quotas t c s ≡ some (value tt, touched t s)
unfolding check_tenant_quotas touched
check-IsFresh config t c s allows f =
    rw (check_tenant_quotas, in_range, memory_free, time_free) refl
  where
    usage : Usage
    usage = or_else (lookup t s.tenant_usage) no_usage

    none_used : usage ≡ no_usage
    none_used = lookup-IsUnused t s.tenant_usage f.unused

    limit :
        (b : ℤ) × (in_bytes config.max_memory_per_tenant_mb ≡ some b) × (ltb_ℤ b (pos 0) ≡ false)
    limit = within_memory config.max_memory_per_tenant_mb allows.0 allows.1

    in_range : in_bytes s.config.max_memory_per_tenant_mb ≡ some limit.0
    in_range =
        ap (λ (k : WorkerConfig). in_bytes k.max_memory_per_tenant_mb) f.same_config ∙ limit.1

    memory_free : ltb_ℤ limit.0 usage.cpu_usage ≡ false
    memory_free = ap (λ (u : Usage). ltb_ℤ limit.0 u.cpu_usage) none_used ∙ limit.2

    time_free : ltb_ℤ s.config.max_cpu_time_per_tenant_ms usage.cpu_usage ≡ false
    time_free =
        ap₂ (λ (k : WorkerConfig) (u : Usage). ltb_ℤ k.max_cpu_time_per_tenant_ms u.cpu_usage)
          f.same_config none_used
        ∙ within_time config.max_cpu_time_per_tenant_ms allows.2

touched-IsFresh :
    (config : WorkerConfig) (t : String) (s : Scheduler)
    → IsFresh config s
    → IsFresh config (touched t s)
unfolding touched
touched-IsFresh config t s f = record {
  same_config = f.same_config;
  same_pools = f.same_pools;
  unused = insert-IsUnused t _ s.tenant_usage (lookup-IsUnused t s.tenant_usage f.unused) f.unused;
}

schedule_step-IsFresh :
    (config : WorkerConfig) (request : StepRequest) (context : BlockContext) (s : Scheduler)
    → AllowsNothingUsed config
    → IsFresh config s
    → schedule_step request context s
      ≡ some (value (pool_for config request), touched context.tenant_id s)
unfolding schedule_step
schedule_step-IsFresh config request context s allows f =
    ap (pool_after (determine_resource_class request))
      (check-IsFresh config context.tenant_id (determine_resource_class request) s allows f)
    ∙ ap (λ p. some (or_no_pool p, touched context.tenant_id s))
        (initialize_pools-lookup config (determine_resource_class request)
          (touched context.tenant_id s) (touched-IsFresh config context.tenant_id s f).same_pools)

abbrev pub after_answer :
    Expected PoolConfig → Option (List (Expected PoolConfig)) → Option (List (Expected PoolConfig))
after_answer answer none = none
after_answer answer (some answers) = some (answer ∷ answers)

-- A history of calls of `schedule_step`, with their answers; `none` is undefined arithmetic.
unfoldable pub schedule_all :
    List (StepRequest × BlockContext) → Scheduler → Option (List (Expected PoolConfig))
schedule_all [] s = some []
schedule_all ((request, context) ∷ steps) s = elim (schedule_step request context s) [
  | none ↦ none
  | some (answer, s') ↦ after_answer answer (schedule_all steps s')
]

schedule_all-IsFresh :
    (config : WorkerConfig) (steps : List (StepRequest × BlockContext)) (s : Scheduler)
    → AllowsNothingUsed config
    → IsFresh config s
    → schedule_all steps s ≡ some (map (λ step. value (pool_for config step.0)) steps)
unfolding schedule_all
schedule_all-IsFresh config [] s allows f = refl
schedule_all-IsFresh config ((request, context) ∷ steps) s allows f =
    rw (schedule_all, schedule_step-IsFresh config request context s allows f)
      (ap (after_answer (value (pool_for config request))) (
        schedule_all-IsFresh config steps (touched context.tenant_id s) allows
          (touched-IsFresh config context.tenant_id s f)))

-- With limits that are not negative, and a limit of memory below 2^43 MB, no history of requests ever
-- meets a quota: nothing charges a tenant.
-- Each request is given the pool of its class, with the size that the configuration names.
pub schedule_all-new_scheduler :
    (config : WorkerConfig) (steps : List (StepRequest × BlockContext))
    → AllowsNothingUsed config
    → schedule_all steps (new_scheduler config)
      ≡ some (map (λ step. value (pool_for config step.0)) steps)
schedule_all-new_scheduler config steps allows =
    schedule_all-IsFresh config steps (new_scheduler config) allows
      (unfold new_scheduler in record { same_config = refl; same_pools = refl; unused = tt })
