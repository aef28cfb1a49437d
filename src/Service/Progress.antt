-- ===== src/Service/Progress.antt =====
-- A pool with its executors: the work that is left, and rest.
use beamline_caf.Base.{
  ℕ, zero, suc, ◌+◌, ◌*◌, ◌≤◌, ◌<◌, ◌≡◌, refl, ap, subst, ℤ, pos, pos_part, List, [], ◌∷◌, ◌++◌,
  length, length-append, arith, All, inl, inr, ◌⊎◌, Inevitably, measured, List-cases,
}
use mathlib.Core.List.{Permᴰ}
use beamline_caf.Core.{StepRequest, ResourceClass}
use beamline_caf.Flags.{Env}
use beamline_caf.Executor.{Host}
use beamline_caf.Executor.Metrics.{on_execute-done}
use beamline_caf.Pool.{PoolMessage}
use beamline_caf.Pool.Cases.{arrivals, of_result}
use beamline_caf.Pool.Starts.{Starts, receive-Starts}
use beamline_caf.Pool.Executors.{running-le-max_concurrency, initial}
use beamline_caf.Service.Everywhere.{HasAll, Inside-HasAll}
use beamline_caf.Service.{Actors, done_messages, Inside, handle, run}
use beamline_caf.Service.Safety.{
  system, requests_of, IsServing, IsReaction, dones, dones_nil, done_sent_one, Inside-IsServing,
  length-Permᴰ, length-requests_of,
}

-- The attempts of the step are few enough for the arithmetic of its delays.
abbrev pub IsFew : StepRequest → Type 0
IsFew r = (m : ℕ) × (r.retry_count ≡ pos m) × (m ≤ 56)

abbrev pub HasFew : Actors → Type 0
HasFew = HasAll IsFew

-- The work that is left: a request is handled, started and run, and its report is handled.
unfoldable pub weigh : List PoolMessage → ℕ
weigh [] = 0
weigh (m ∷ ms) = 1 + 2 * length (arrivals m) + weigh ms

pub weigh-append : (xs ys : List PoolMessage) → weigh (xs ++ ys) ≡ weigh xs + weigh ys
unfolding weigh
weigh-append [] ys = omega arith
weigh-append (x ∷ xs) ys = omega (arith, weigh-append xs ys)

weigh-done_messages : (n : ℕ) → weigh (done_messages n) ≡ n
unfolding weigh done_messages arrivals
weigh-done_messages zero = refl
weigh-done_messages (suc n) = omega (arith, weigh-done_messages n)

abbrev pub work : Actors → ℕ
work s = weigh s.mailbox + 2 * (length s.pool.pending_requests + length s.executors)

pub Inside-work : {h : Host} {s t : Actors} → Inside h s t → work t < work s
unfolding weigh
Inside-work {h} {s} (handle env m rest p new e got more) =
    let starts =
      of_result {P = Starts (length s.pool.pending_requests + length (arrivals m)) s.pool.spawned}
        (receive-Starts env m s.pool) got in
    omega (
      arith,
      ap weigh e,
      starts.trades,
      length-append s.pool.spawned starts.new,
      length-append s.pool.spawned new,
      ap length more,
      ap length starts.extends,
      length-append s.executors new,
    )
Inside-work {h} {s} (run env before after r w u x e ran) = omega (
  arith,
  weigh-append s.mailbox (done_messages x.done_sent),
  weigh-done_messages x.done_sent,
  done_sent_one h env r w u x ran,
  ap length e,
  length-append before (r ∷ after),
  length-append before after,
)

-- Nothing is left to do, and every request that has started has run.
pub record IsAtRest (h : Host) (s : Actors) : Type 0 where
  pub no_message : s.mailbox ≡ []
  pub no_request : s.pool.pending_requests ≡ []
  pub no_executor : s.executors ≡ []
  pub all_run : Permᴰ s.pool.spawned (requests_of s.ended)
  pub really : All (IsReaction h) s.ended

module _ (h : Host) (w : h.World) (env : Env) (resource_class : ResourceClass)
    (max_concurrency : ℤ) where
  abbrev pub Keeps : Actors → Type 0
  Keeps s = IsServing h (initial env resource_class max_concurrency) s × HasFew s

  abbrev pub Goes : Actors → Type 0
  Goes s = ((t : Actors) × Inside h s t) ⊎ IsAtRest h s

  Goes-message :
      (s : Actors) (m : PoolMessage) (rest : List PoolMessage) → s.mailbox ≡ m ∷ rest → Goes s
  Goes-message s m rest e =
      let (p, got, starts) = receive-Starts env m s.pool in
      inl (_, handle env m rest p starts.new e got starts.extends)

  Goes-executor :
      (s : Actors) (r : StepRequest) (rest : List StepRequest)
      → s.executors ≡ r ∷ rest
      → All IsFew s.executors
      → Goes s
  Goes-executor s r rest e few =
      let (m, here, le) = (subst (All IsFew) e few).0 in
      let (x, v, ran, _, _) = on_execute-done h env r m w here le in
      inl (_, run env [] rest r w v x e ran)

  Goes-nowhere :
      (s : Actors)
      → 0 < pos_part max_concurrency
      → Keeps s
      → s.mailbox ≡ []
      → s.executors ≡ []
      → Goes s
  Goes-nowhere s lt (v, few) no_message no_executor = inr (record {
    no_message = no_message;
    no_request = elim full_or_empty [
      | inl empty ↦ empty
      | inr full ↦ absurd (omega (arith, full, lt, handled))
    ];
    no_executor = no_executor;
    all_run = subst (λ l. Permᴰ s.pool.spawned (l ++ requests_of s.ended)) no_executor v.each_once;
    really = v.really;
  })
    where
      full_or_empty :
          (s.pool.pending_requests ≡ [])
          ⊎ (s.handled + pos_part max_concurrency ≡ length s.pool.spawned)
      full_or_empty =
          (running-le-max_concurrency env resource_class max_concurrency (system s) v.reached).2

      handled : length s.pool.spawned ≡ s.handled
      handled = omega (
        arith,
        length-Permᴰ v.each_once,
        length-append s.executors (requests_of s.ended),
        length-requests_of s.ended,
        ap length no_executor,
        v.reports,
        ap dones no_message,
        dones_nil,
      )

  pub Goes-on : (s : Actors) → 0 < pos_part max_concurrency → Keeps s → Goes s
  Goes-on s lt k = elim (List-cases s.mailbox) [
    | inr (m, rest, e) ↦ Goes-message s m rest e
    | inl no_message ↦ elim (List-cases s.executors) [
      | inr (r, rest, e) ↦ Goes-executor s r rest e k.1.in_executors
      | inl no_executor ↦ Goes-nowhere s lt k no_message no_executor
    ]
  ]

  -- What the moves keep besides holds at rest.
  pub rests_with :
      (Extra : Actors → Type 0)
      → ((s t : Actors) → Keeps s → Inside h s t → Extra s → Extra t)
      → 0 < pos_part max_concurrency
      → (s : Actors) → Keeps s
      → Extra s
      → Inevitably (Inside h) (λ t. IsAtRest h t × Extra t) s
  rests_with Extra kept lt s k x =
      measured (Inside h) (λ t. IsAtRest h t × Extra t) (λ t. Keeps t × Extra t) work
        (λ t (l, y). elim (Goes-on t lt l) [ inl m ↦ inl m | inr r ↦ inr (r, y) ])
        (λ t u (l, y) m.
          (((Inside-IsServing m l.0, Inside-HasAll IsFew m l.1), kept t u l m y), Inside-work m))
        s (k, x)
