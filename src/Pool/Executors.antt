-- ===== src/Pool/Executors.antt =====
-- The pool together with the executors that it has started. Each executor sends "done" once, when
-- its step has ended (`ExecutorActorState::make_behavior`); nobody else sends that atom.
use beamline_caf.Base.{
  ℕ, suc, ◌+◌, ◌-◌, ◌≤◌, ◌<◌, ◌≡◌, refl, ◌∙◌, ℤ, pos, pos_part, ◌≤ℤ◌, List, [], ◌∷◌, String, some,
  arith, ◌⊎◌, inc_parts, dec_parts, length, length-append, ◌≢◌,
}
use beamline_caf.Core.{StepRequest, ResourceClass}
use beamline_caf.Flags.{Env}
use beamline_caf.Pool.{
  Pending, PoolActorState, PoolMessage, bare, on_execute, on_cancel, receive, new_pool,
}
use beamline_caf.Pool.Drain.{serve, start, serve_ind}
use beamline_caf.Pool.Cases.{
  unserved, entry, unserved, freed, on_execute_ind, on_done-serve, receive_ind, receive-done,
  of_result,
}
use beamline_caf.Pool.Load.{IsSound, receive-IsSound, new_pool-IsSound}

-- `finished` counts the executors that have sent their "done".
pub record System : Type 0 where
  pub pool : PoolActorState
  pub finished : ℕ

-- A message from outside, or the end of a running executor. The flags may change in between.
pub data Step (s t : System) : Type 0 where
  message :
      (env : Env) (m : PoolMessage)
      → m ≢ bare "done"
      → receive env m s.pool ≡ some t.pool
      → t.finished ≡ s.finished
      → Step s t
  finish :
      (env : Env)
      → s.finished < length s.pool.spawned
      → receive env (bare "done") s.pool ≡ some t.pool
      → t.finished ≡ suc s.finished
      → Step s t

pub data Reach (s : System) : System → Type 0 where
  here : Reach s s
  next : {t u : System} → Reach s t → Step t u → Reach s u

-- The load counts the executors that have not finished.
abbrev pub Counts : ℕ → PoolActorState → Type 0
Counts finished s =
    (pos 0 ≤ℤ s.current_load) × (pos_part s.current_load + finished ≡ length s.spawned)

pub start-Counts : (n : ℕ) (p : Pending) (s : PoolActorState) → Counts n s → Counts n (start p s)
start-Counts n p s h =
    ground (arith, inc_parts s.current_load, length-append s.spawned (p.request ∷ []))

serve-Counts : (n : ℕ) (q : List Pending) (s : PoolActorState) → Counts n s → Counts n (serve q s)
serve-Counts n =
    serve_ind (λ q s t. Counts n s → Counts n t) (λ s h. h) (λ p rest s e h. h)
      (λ p rest s t b e k ih h. ih (start-Counts n p s h)) (λ p rest s t e k ih h. ih h)

pub freed-Counts :
    (n : ℕ) (s : PoolActorState) → n < length s.spawned → Counts n s → Counts (suc n) (freed s)
freed-Counts n s lt h = ground (arith, dec_parts s.current_load)

on_cancel-Counts :
    (n : ℕ) (step_id : String) (s : PoolActorState) → Counts n s → Counts n (on_cancel step_id s)
unfolding on_cancel
on_cancel-Counts n step_id s h = h

on_execute-Counts :
    (n : ℕ) (env : Env) (request : StepRequest) (sender : ℕ) (s : PoolActorState)
    → Counts n s
    → (t : PoolActorState) × (on_execute env request sender s ≡ some t) × Counts n t
on_execute-Counts n env request sender s h =
    on_execute_ind (Counts n) env request sender s (λ _ _. h) (λ _ _. h)
      (λ b _ _. start-Counts n (entry request sender) s h)
      (λ _ _. serve-Counts n s.pending_requests (unserved request s) h)

receive-Counts :
    (n : ℕ) (env : Env) (m : PoolMessage) (s : PoolActorState)
    → m ≢ bare "done"
    → Counts n s
    → (t : PoolActorState) × (receive env m s ≡ some t) × Counts n t
receive-Counts n env m s other h =
    receive_ind (Counts n) env m s (λ e. absurd (other e)) h
      (λ request sender. on_execute-Counts n env request sender s h)
      (λ step_id. on_cancel-Counts n step_id s h)

done-Counts :
    (n : ℕ) (env : Env) (s : PoolActorState)
    → n < length s.spawned
    → Counts n s
    → (t : PoolActorState) × (receive env (bare "done") s ≡ some t) × Counts (suc n) t
done-Counts n env s lt h = (
  serve s.pending_requests (freed s),
  receive-done env s ∙ on_done-serve s,
  serve-Counts (suc n) s.pending_requests (freed s) (freed-Counts n s lt h),
)

-- The size of the pool never changes.
abbrev HasSize : ℤ → PoolActorState → Type 0
HasSize size s = s.max_concurrency ≡ size

serve-HasSize :
    (size : ℤ) (q : List Pending) (s : PoolActorState) → HasSize size s → HasSize size (serve q s)
serve-HasSize size =
    serve_ind (λ q s t. HasSize size s → HasSize size t) (λ s h. h) (λ p rest s e h. h)
      (λ p rest s t b e k ih h. ih h) (λ p rest s t e k ih h. ih h)

receive-HasSize :
    (size : ℤ) (env : Env) (m : PoolMessage) (s : PoolActorState)
    → HasSize size s
    → (t : PoolActorState) × (receive env m s ≡ some t) × HasSize size t
receive-HasSize size env m s h =
    receive_ind (HasSize size) env m s (λ _. serve-HasSize size s.pending_requests (freed s) h) h
      (λ request sender.
        on_execute_ind (HasSize size) env request sender s (λ _ _. h) (λ _ _. h) (λ _ _ _. h)
          (λ _ _. serve-HasSize size s.pending_requests (unserved request s) h))
      (λ step_id. unfold on_cancel in h)

-- What holds in every reachable state of a pool of the given size.
pub record IsBalanced (size : ℤ) (s : System) : Type 0 where
  pub has_size : s.pool.max_concurrency ≡ size
  pub sound : IsSound s.pool
  pub counts : pos_part s.pool.current_load + s.finished ≡ length s.pool.spawned

pub Step-IsBalanced : {size : ℤ} {s t : System} → Step s t → IsBalanced size s → IsBalanced size t
Step-IsBalanced {size} {s} {t} (message env m other e same) v = record {
  has_size = of_result (receive-HasSize size env m s.pool v.has_size) e;
  sound = of_result (receive-IsSound env m s.pool v.sound) e;
  counts =
      rw same
        (of_result (receive-Counts s.finished env m s.pool other (v.sound.nonneg, v.counts)) e).1;
}
Step-IsBalanced {size} {s} {t} (finish env running e one) v = record {
  has_size = of_result (receive-HasSize size env (bare "done") s.pool v.has_size) e;
  sound = of_result (receive-IsSound env (bare "done") s.pool v.sound) e;
  counts =
      rw one (of_result (done-Counts s.finished env s.pool running (v.sound.nonneg, v.counts)) e).1;
}

pub Reach-IsBalanced : {size : ℤ} {s t : System} → IsBalanced size s → Reach s t → IsBalanced size t
Reach-IsBalanced v here = v
Reach-IsBalanced v (next r st) = Step-IsBalanced st (Reach-IsBalanced v r)

abbrev pub initial : Env → ResourceClass → ℤ → System
initial env resource_class max_concurrency = record {
  pool = new_pool env resource_class max_concurrency;
  finished = 0;
}

pub initial-IsBalanced :
    (env : Env) (resource_class : ResourceClass) (max_concurrency : ℤ)
    → IsBalanced max_concurrency (initial env resource_class max_concurrency)
initial-IsBalanced env resource_class max_concurrency = record {
  has_size = unfold new_pool in refl;
  sound = new_pool-IsSound env resource_class max_concurrency;
  counts = unfold new_pool in refl;
}

-- Over every history of messages and finished steps, at most `max_concurrency` executors run at
-- once, the load is their number, and while a request waits every slot is in use.
pub running-le-max_concurrency :
    (env : Env) (resource_class : ResourceClass) (max_concurrency : ℤ) (t : System)
    → Reach (initial env resource_class max_concurrency) t
    → (t.pool.current_load ≡ pos (length t.pool.spawned - t.finished))
      × (length t.pool.spawned ≤ t.finished + pos_part max_concurrency)
      × ((t.pool.pending_requests ≡ [])
          ⊎ (t.finished + pos_part max_concurrency ≡ length t.pool.spawned))
running-le-max_concurrency env resource_class max_concurrency t r =
    let v = Reach-IsBalanced (initial-IsBalanced env resource_class max_concurrency) r in
    ground arith
