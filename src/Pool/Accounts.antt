-- ===== src/Pool/Accounts.antt =====
-- What becomes of each request, by the pool's log.
use beamline_caf.Base.{
  ℕ, suc, ◌+◌, ◌≡◌, refl, ℤ, List, [], ◌∷◌, ◌++◌, some, arith, length, length-append, All,
}
use beamline_caf.Core.{StepRequest, ResourceClass}
use beamline_caf.Flags.{Env}
use beamline_caf.Observability.Log.{Line, Level, info, warn, error, debug}
use beamline_caf.Pool.{Pending, PoolActorState, PoolMessage, receive, on_execute, new_pool}
use beamline_caf.Pool.Lines.{full_line, started_line, processing_line, unknown_line}
use beamline_caf.Pool.Drain.{serve, serve_ind}
use beamline_caf.Pool.Cases.{receive_rule, arrivals, entry, unserved, freed, on_execute_ind}
use beamline_caf.Pool.Order.{all_arrivals, run, IsCancelFree, not-IsCancelFree}

-- A warning stands for a request that a full queue turned away, an error for one of a type that no
-- block has.
unfoldable pub loss : Level → ℕ
loss warn = 1
loss error = 1
loss info = 0
loss debug = 0

unfoldable pub losses : List Line → ℕ
unfolding loss
losses [] = 0
losses (l ∷ ls) = loss l.level + losses ls

losses-append : (xs ys : List Line) → losses (xs ++ ys) ≡ losses xs + losses ys
unfolding losses
losses-append [] ys = omega arith
losses-append (x ∷ xs) ys = omega (arith, losses-append xs ys)

losses_one : (ls : List Line) (l : Line) → losses (ls ++ l ∷ []) ≡ losses ls + loss l.level
unfolding losses
losses_one ls l = omega (arith, losses-append ls (l ∷ []))

-- The requests that the pool has met: started, waiting or lost.
abbrev met : List Pending → PoolActorState → ℕ
met q s = length s.spawned + length q + losses s.logged

serve-met :
    (q : List Pending) (s : PoolActorState) → met (serve q s).pending_requests (serve q s) ≡ met q s
unfolding loss
serve-met =
    serve_ind (λ q s t. met t.pending_requests t ≡ met q s) (λ s. refl) (λ p rest s e. refl)
      (λ p rest s t b e k ih. omega (
        arith,
        ih,
        length-append s.spawned (p.request ∷ []),
        losses_one s.logged (processing_line s.resource_class (length rest) p.request),
      ))
      (λ p rest s t e k ih. omega (
        arith,
        ih,
        losses_one s.logged (processing_line s.resource_class (length rest) p.request),
        losses_one (s.logged ++ processing_line s.resource_class (length rest) p.request ∷ [])
            (unknown_line p.request),
      ))

on_execute-met :
    (env : Env) (request : StepRequest) (sender : ℕ) (s : PoolActorState)
    → (t : PoolActorState) × (on_execute env request sender s ≡ some t)
      × (met t.pending_requests t ≡ suc (met s.pending_requests s))
unfolding loss
on_execute-met env request sender s =
    on_execute_ind (λ t. met t.pending_requests t ≡ suc (met s.pending_requests s)) env request
      sender s
      (λ _ _. omega (
        arith,
        losses_one s.logged
            (full_line s.resource_class (length s.pending_requests) s.max_queue_size request),
      ))
      (λ _ _. omega (arith, length-append s.pending_requests (entry request sender ∷ [])))
      (λ _ _ _. omega (
        arith,
        length-append s.spawned (request ∷ []),
        losses_one s.logged (started_line s.resource_class request),
      ))
      (λ _ _. omega (
        arith,
        serve-met s.pending_requests (unserved request s),
        losses_one s.logged (started_line s.resource_class request),
        losses_one (s.logged ++ started_line s.resource_class request ∷ []) (unknown_line request),
      ))

receive-met :
    (env : Env) (m : PoolMessage) (s : PoolActorState)
    → IsCancelFree m
    → (t : PoolActorState) × (receive env m s ≡ some t)
      × (met t.pending_requests t ≡ met s.pending_requests s + length (arrivals m))
receive-met env m s c =
    receive_rule (λ rs t. met t.pending_requests t ≡ met s.pending_requests s + length rs) env m s
      (λ _. omega (arith, serve-met s.pending_requests (freed s))) (omega arith)
      (λ request sender _.
        let (t, eq, one) = on_execute-met env request sender s in (t, eq, omega (arith, one)))
      (λ step_id e. absurd (not-IsCancelFree step_id c e))

run-met :
    (ms : List (Env × PoolMessage)) (s : PoolActorState)
    → All (λ e. IsCancelFree e.1) ms
    → (t : PoolActorState) × (run ms s ≡ some t)
      × (met t.pending_requests t ≡ met s.pending_requests s + length (all_arrivals ms))
unfolding run
run-met [] s c = (s, refl, omega arith)
run-met ((env, m) ∷ ms) s (c, cs) =
    let (t, e, one) = receive-met env m s c in
    let (t', e', more) = run-met ms t cs in
    (t', rw e e', omega (arith, one, more, length-append (arrivals m) (all_arrivals ms)))

-- With any flags, as long as nothing is cancelled, the requests that have arrived are as many as those
-- that have started, those that wait, and the warnings and errors in the log together: none goes
-- without a trace.
pub run-new_pool-losses :
    (env : Env) (resource_class : ResourceClass) (max_concurrency : ℤ)
    (ms : List (Env × PoolMessage))
    → All (λ e. IsCancelFree e.1) ms
    → (t : PoolActorState) × (run ms (new_pool env resource_class max_concurrency) ≡ some t)
      × (length t.spawned + length t.pending_requests + losses t.logged ≡ length (all_arrivals ms))
run-new_pool-losses env resource_class max_concurrency ms c =
    let (t, e, all) = run-met ms (new_pool env resource_class max_concurrency) c in
    (t, e, unfold new_pool losses in omega (arith, all))
