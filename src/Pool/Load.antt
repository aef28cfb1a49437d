-- ===== src/Pool/Load.antt =====
-- The pool's slots: how many executors run, and that nobody waits beside a free slot.
use beamline_caf.Base.{
  ℕ, ◌≡◌, refl, ℤ, pos, pos_part, ltb_ℤ, leb_ℤ, ◌≤ℤ◌, true, false, List, [], ◌∷◌, String, some,
  arith, ◌⊎◌, tests, inc_parts, dec_parts,
}
use beamline_caf.Core.{StepRequest, ResourceClass}
use beamline_caf.Flags.{Env}
use beamline_caf.Pool.{
  Block, Pending, PoolActorState, PoolMessage, on_execute, on_cancel, receive, new_pool,
  cancel_loop,
}
use beamline_caf.Pool.Drain.{serve, start, serve_ind}
use beamline_caf.Pool.Cases.{greeted, unserved, entry, freed, on_execute_ind, receive_ind}

-- The load is a number of slots that exist, and a request waits only if every slot is taken.
pub record IsSound (s : PoolActorState) : Type 0 where
  pub nonneg : pos 0 ≤ℤ s.current_load
  pub bounded : s.current_load ≤ℤ pos (pos_part s.max_concurrency)
  pub busy : (s.pending_requests ≡ []) ⊎ (s.max_concurrency ≤ℤ s.current_load)

-- The part that holds while the queue is being served.
abbrev HasSlots : PoolActorState → Type 0
HasSlots s = (pos 0 ≤ℤ s.current_load) × (s.current_load ≤ℤ pos (pos_part s.max_concurrency))

start-HasSlots :
    (p : Pending) (s : PoolActorState)
    → ltb_ℤ s.current_load s.max_concurrency ≡ true
    → HasSlots s
    → HasSlots (start p s)
start-HasSlots p s e h = omega (tests, inc_parts s.current_load)

serve-IsSound : (q : List Pending) (s : PoolActorState) → HasSlots s → IsSound (serve q s)
serve-IsSound =
    serve_ind (λ q s t. HasSlots s → IsSound t) (λ s h. ground arith) (λ p rest s e h. ground arith)
      (λ p rest s t b e k ih h. ih (start-HasSlots p s e h)) (λ p rest s t e k ih h. ih h)

freed-HasSlots : (s : PoolActorState) → HasSlots s → HasSlots (freed s)
freed-HasSlots s h = ground (arith, dec_parts s.current_load)

cancel_loop-nil :
    (step_id : String) (q acc : List Pending) → q ≡ [] → cancel_loop step_id q acc ≡ acc
unfolding cancel_loop
cancel_loop-nil step_id [] acc e = refl
cancel_loop-nil step_id (p ∷ q) acc e = cc

on_cancel-IsSound :
    (step_id : String) (s : PoolActorState) → IsSound s → IsSound (on_cancel step_id s)
unfolding on_cancel
on_cancel-IsSound step_id s v = ground (arith, cancel_loop-nil step_id s.pending_requests [])

on_execute-IsSound :
    (env : Env) (request : StepRequest) (sender : ℕ) (s : PoolActorState)
    → IsSound s
    → (t : PoolActorState) × (on_execute env request sender s ≡ some t) × IsSound t
on_execute-IsSound env request sender s v =
    on_execute_ind IsSound env request sender s
      (λ _ _. record { nonneg = v.nonneg; bounded = v.bounded; busy = v.busy })
      (λ busy _. ground arith) (λ b free k. started b free)
      (λ free k. serve-IsSound s.pending_requests (unserved request s) (v.nonneg, v.bounded))
  where
    started :
        (b : Block)
        → leb_ℤ s.max_concurrency s.current_load ≡ false
        → IsSound (start (entry request sender) (greeted request s))
    started b free = ground (arith, inc_parts s.current_load)

-- Every message is handled to the end, whatever the flags and the queue, and leaves the load
-- between 0 and the pool's size and no request waiting beside a free slot.
pub receive-IsSound :
    (env : Env) (m : PoolMessage) (s : PoolActorState)
    → IsSound s
    → (t : PoolActorState) × (receive env m s ≡ some t) × IsSound t
receive-IsSound env m s v =
    receive_ind IsSound env m s
      (λ _. serve-IsSound s.pending_requests (freed s) (freed-HasSlots s (v.nonneg, v.bounded))) v
      (λ request sender. on_execute-IsSound env request sender s v)
      (λ step_id. on_cancel-IsSound step_id s v)

pub new_pool-IsSound :
    (env : Env) (resource_class : ResourceClass) (max_concurrency : ℤ)
    → IsSound (new_pool env resource_class max_concurrency)
unfolding new_pool
new_pool-IsSound env resource_class max_concurrency = ground arith
