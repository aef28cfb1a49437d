-- ===== src/Pool/Bound.antt =====
-- The bound on the queue, while the flag for queue management is set.
use beamline_caf.Base.{
  ◌≤◌, ◌<◌, ◌≡◌, refl, ℤ, pos, List, [], ◌∷◌, Bool, true, false, some, arith, length, length-append,
  keep, All,
}
use beamline_caf.Core.{ResourceClass}
use beamline_caf.Flags.{Env, is_queue_management_enabled}
use beamline_caf.Pool.{Pending, PoolActorState, PoolMessage, receive, new_pool, is_full, survives}
use beamline_caf.Pool.Drain.{serve, serve_ind}
use beamline_caf.Pool.Cases.{unserved, entry, enqueue, freed, on_execute_ind, receive_ind}
use beamline_caf.Pool.Cancel.{on_cancel-keep}
use beamline_caf.Pool.Order.{run}

-- The queue is within the limit that the constructor sets under the flag.
pub record IsBounded (s : PoolActorState) : Type 0 where
  pub limit : s.max_queue_size ≡ pos 1000
  pub within : length s.pending_requests ≤ 1000

serve-IsBounded :
    (q : List Pending) (s : PoolActorState)
    → s.max_queue_size ≡ pos 1000
    → length q ≤ 1000
    → IsBounded (serve q s)
serve-IsBounded =
    serve_ind (λ q s t. s.max_queue_size ≡ pos 1000 → length q ≤ 1000 → IsBounded t)
      (λ s l h. record { limit = l; within = omega arith })
      (λ p rest s e l h. record { limit = l; within = h })
      (λ p rest s t b e k ih l h. ih l (omega arith)) (λ p rest s t e k ih l h. ih l (omega arith))

pub length-keep-le : (f : Pending → Bool) (q : List Pending) → length (keep f q) ≤ length q
length-keep-le f [] = omega arith
length-keep-le f (p ∷ q) = ground (arith, length-keep-le f q)

enqueue-IsBounded :
    (p : Pending) (s : PoolActorState) → is_full s ≡ false → IsBounded s → IsBounded (enqueue p s)
enqueue-IsBounded p s room v = record {
  limit = v.limit;
  within = omega (arith, length-append s.pending_requests (p ∷ []), space);
}
  where
    space : length s.pending_requests < 1000
    space = let e = v.limit in ground arith

pub receive-IsBounded :
    (env : Env) (m : PoolMessage) (s : PoolActorState)
    → is_queue_management_enabled env ≡ true
    → IsBounded s
    → (t : PoolActorState) × (receive env m s ≡ some t) × IsBounded t
receive-IsBounded env m s on v =
    receive_ind IsBounded env m s
      (λ _. serve-IsBounded s.pending_requests (freed s) v.limit v.within) v
      (λ request sender.
        on_execute_ind IsBounded env request sender s
          (λ _ _. record { limit = v.limit; within = v.within })
          (λ _ room. enqueue-IsBounded (entry request sender) s (rw on at room) v)
          (λ _ _ _. record { limit = v.limit; within = v.within })
          (λ _ _. serve-IsBounded s.pending_requests (unserved request s) v.limit v.within))
      (λ step_id. record {
        limit = rw (on_cancel-keep step_id s) v.limit;
        within =
            rw (on_cancel-keep step_id s)
              (omega (arith, length-keep-le (survives step_id) s.pending_requests));
      })

run-IsBounded :
    (ms : List (Env × PoolMessage)) (s : PoolActorState)
    → All (λ e. is_queue_management_enabled e.0 ≡ true) ms
    → IsBounded s
    → (t : PoolActorState) × (run ms s ≡ some t) × IsBounded t
unfolding run
run-IsBounded [] s on v = (s, refl, v)
run-IsBounded ((env, m) ∷ ms) s (on, ons) v =
    let (t, e, w) = receive-IsBounded env m s on v in
    let (t', e', w') = run-IsBounded ms t ons w in (t', rw e e', w')

-- A pool that is made and run under the flag handles every message, and its queue never holds more
-- than 1000 requests.
pub run-new_pool-le :
    (env : Env) (resource_class : ResourceClass) (max_concurrency : ℤ)
    (ms : List (Env × PoolMessage))
    → is_queue_management_enabled env ≡ true
    → All (λ e. is_queue_management_enabled e.0 ≡ true) ms
    → (t : PoolActorState) × (run ms (new_pool env resource_class max_concurrency) ≡ some t)
      × (length t.pending_requests ≤ 1000)
run-new_pool-le env resource_class max_concurrency ms on ons =
    let (t, e, v) =
      run-IsBounded ms (new_pool env resource_class max_concurrency) ons
        (unfold new_pool in record { limit = rw on; within = omega arith }) in
    (t, e, v.within)
