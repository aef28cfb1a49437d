-- ===== src/Pool/Order.antt =====
-- The order in which requests start.
use beamline_caf.Base.{
  String, ◌≢◌, subst, ℕ, ◌≡◌, refl, sym, ◌∙◌, ℤ, pos, leb_ℤ, true, false, List, [], ◌∷◌, ◌++◌,
  Option, none, some, arith, inl, inr, ◌⊎◌, if◌then◌else◌, is_some, ◌=ˢ◌, map, All,
}
use mathlib.Core.List.{append_assoc, append-nil}
use mathlib.Core.Bool.{false≢true}
use beamline_caf.Core.{StepRequest, ResourceClass}
use beamline_caf.Flags.{Env, is_queue_management_enabled}
use beamline_caf.Pool.{
  Block, Pending, PoolActorState, PoolMessage, with_text, create_block_executor, on_execute,
  on_cancel, receive, new_pool, is_full, ◌>>=◌,
}
use beamline_caf.Pool.Drain.{serve, serve_ind}
use beamline_caf.Pool.Cases.{
  receive_rule, arrivals, unserved, entry, freed, on_execute_ind, receive_ind, of_result,
}
use beamline_caf.Pool.Load.{IsSound, receive-IsSound, new_pool-IsSound}

-- The requests of a type that the pool has an executor for.
unfoldable pub known : List StepRequest → List StepRequest
known [] = []
known (r ∷ rs) = if is_some (create_block_executor r.type) then r ∷ known rs else known rs

abbrev pub requests : List Pending → List StepRequest
requests = map (λ p. p.request)

-- What has started, followed by what will start if nothing else happens.
abbrev pub schedule : PoolActorState → List StepRequest
schedule s = s.spawned ++ known (requests s.pending_requests)

pub known-append : (xs ys : List StepRequest) → known (xs ++ ys) ≡ known xs ++ known ys
unfolding known
known-append [] ys = refl
known-append (x ∷ xs) ys = ground (arith, known-append xs ys)

pub known-cons_known :
    (r : StepRequest) (rs : List StepRequest) {b : Block}
    → create_block_executor r.type ≡ some b
    → known (r ∷ rs) ≡ r ∷ known rs
unfolding known
known-cons_known r rs e = rw e

pub known-cons_unknown :
    (r : StepRequest) (rs : List StepRequest)
    → create_block_executor r.type ≡ none
    → known (r ∷ rs) ≡ known rs
unfolding known
known-cons_unknown r rs e = rw e

pub known-nil : known [] ≡ []
unfolding known
known-nil = refl

pub serve-schedule :
    (q : List Pending) (s : PoolActorState) → schedule (serve q s) ≡ s.spawned ++ known (requests q)
serve-schedule =
    serve_ind (λ q s t. schedule t ≡ s.spawned ++ known (requests q)) (λ s. refl)
      (λ p rest s e. refl)
      (λ p rest s t b e k ih.
        rw (known-cons_known p.request (requests rest) k)
          (ih ∙ append_assoc s.spawned (p.request ∷ []) (known (requests rest))))
      (λ p rest s t e k ih. rw (known-cons_unknown p.request (requests rest) k) ih)

pub requests-append : (xs ys : List Pending) → requests (xs ++ ys) ≡ requests xs ++ requests ys
requests-append [] ys = refl
requests-append (x ∷ xs) ys = rw (requests-append xs ys)

abbrev pub IsUnbounded : PoolActorState → Type 0
IsUnbounded s = s.max_queue_size ≡ pos 0

not-is_full : (s : PoolActorState) → IsUnbounded s → is_full s ≡ false
not-is_full s u = rw u

-- A free slot means an empty queue.
pub idle :
    (s : PoolActorState)
    → IsSound s
    → leb_ℤ s.max_concurrency s.current_load ≡ false
    → s.pending_requests ≡ []
idle s v free = ground arith

-- A request is turned away by a full queue, or the last of the schedule.
pub on_execute-schedule_or_full :
    (env : Env) (request : StepRequest) (sender : ℕ) (s : PoolActorState)
    → IsSound s
    → (t : PoolActorState) × (on_execute env request sender s ≡ some t)
      × ((is_full s ≡ true) × (schedule t ≡ schedule s)
          ⊎ (schedule t ≡ schedule s ++ known (request ∷ [])))
on_execute-schedule_or_full env request sender s v =
    on_execute_ind
      (λ t.
        (is_full s ≡ true) × (schedule t ≡ schedule s)
        ⊎ (schedule t ≡ schedule s ++ known (request ∷ [])))
      env request sender s (λ _ full. inl (full, refl))
      (λ _ _. inr (
        rw
          (
            requests-append s.pending_requests (entry request sender ∷ []),
            known-append (requests s.pending_requests) (request ∷ []),
          )
          (sym (append_assoc s.spawned _ _))))
      (λ b free k. inr (simp (idle s v free, known-nil, append-nil, known-cons_known request [] k)))
      (λ free k. inr (
        serve-schedule s.pending_requests (unserved request s)
        ∙ rw (known-cons_unknown request [] k, known-nil, append-nil)))

on_execute-schedule :
    (env : Env) (request : StepRequest) (sender : ℕ) (s : PoolActorState)
    → IsSound s
    → IsUnbounded s
    → (t : PoolActorState) × (on_execute env request sender s ≡ some t)
      × (schedule t ≡ schedule s ++ known (request ∷ []))
on_execute-schedule env request sender s v u =
    let (t, e, either) = on_execute-schedule_or_full env request sender s v in
    elim either [
      | inl (full, _) ↦ absurd (false≢true (sym (not-is_full s u) ∙ full))
      | inr order ↦ (t, e, order)
    ]

serve-IsUnbounded :
    (q : List Pending) (s : PoolActorState) → IsUnbounded s → IsUnbounded (serve q s)
serve-IsUnbounded =
    serve_ind (λ q s t. IsUnbounded s → IsUnbounded t) (λ s h. h) (λ p rest s e h. h)
      (λ p rest s t b e k ih h. ih h) (λ p rest s t e k ih h. ih h)

pub receive-IsUnbounded :
    (env : Env) (m : PoolMessage) (s : PoolActorState)
    → IsUnbounded s
    → (t : PoolActorState) × (receive env m s ≡ some t) × IsUnbounded t
receive-IsUnbounded env m s h =
    receive_ind IsUnbounded env m s (λ _. serve-IsUnbounded s.pending_requests (freed s) h) h
      (λ request sender.
        on_execute_ind IsUnbounded env request sender s (λ _ _. h) (λ _ _. h) (λ _ _ _. h)
          (λ _ _. serve-IsUnbounded s.pending_requests (unserved request s) h))
      (λ step_id. unfold on_cancel in h)

-- No message of the list cancels a step.
abbrev pub IsCancelFree : PoolMessage → Type 0
IsCancelFree (with_text atom step_id) = (atom =ˢ "cancel") ≡ false
IsCancelFree _ = Unit

pub not-IsCancelFree :
    {m : PoolMessage} (step_id : String) → IsCancelFree m → m ≢ with_text "cancel" step_id
not-IsCancelFree step_id c e = false≢true (sym (subst IsCancelFree e c))

pub receive-schedule :
    (env : Env) (m : PoolMessage) (s : PoolActorState)
    → IsCancelFree m
    → IsSound s
    → IsUnbounded s
    → (t : PoolActorState) × (receive env m s ≡ some t)
      × (schedule t ≡ schedule s ++ known (arrivals m))
receive-schedule env m s c v u =
    receive_rule (λ rs t. schedule t ≡ schedule s ++ known rs) env m s
      (λ _. serve-schedule s.pending_requests (freed s) ∙ rw (known-nil, append-nil))
      (rw (known-nil, append-nil))
      (λ request sender _. on_execute-schedule env request sender s v u)
      (λ step_id e. absurd (not-IsCancelFree step_id c e))

-- The pool's mailbox, in the order of processing; each message is read with the flags of its time.
unfoldable pub run : List (Env × PoolMessage) → PoolActorState → Option PoolActorState
run [] s = some s
run ((env, m) ∷ ms) s = receive env m s >>= run ms

abbrev pub all_arrivals : List (Env × PoolMessage) → List StepRequest
all_arrivals [] = []
all_arrivals ((env, m) ∷ ms) = arrivals m ++ all_arrivals ms

run-schedule :
    (ms : List (Env × PoolMessage)) (s : PoolActorState)
    → All (λ e. IsCancelFree e.1) ms
    → IsSound s
    → IsUnbounded s
    → (t : PoolActorState) × (run ms s ≡ some t)
      × (schedule t ≡ schedule s ++ known (all_arrivals ms))
unfolding run
run-schedule [] s c v u = (s, refl, rw (known-nil, append-nil))
run-schedule ((env, m) ∷ ms) s (c, cs) v u =
    let (t, e, order) = receive-schedule env m s c v u in
    let (t', e', order') =
      run-schedule ms t cs (of_result (receive-IsSound env m s v) e)
        (of_result (receive-IsUnbounded env m s u) e) in
    (
      t',
      rw e e',
      order'
          ∙ rw (order, known-append (arrivals m) (all_arrivals ms)) (append_assoc (schedule s) _ _),
    )

-- With the queue unbounded and nothing cancelled, the requests that have started, followed by those of
-- a known type in the queue, are the requests of a known type in their order of arrival: none of them
-- is lost, doubled or overtaken, whatever comes in between. Requests of an unknown type in the queue
-- are not counted.
pub run-new_pool-schedule :
    (env : Env) (resource_class : ResourceClass) (max_concurrency : ℤ)
    (ms : List (Env × PoolMessage))
    → is_queue_management_enabled env ≡ false
    → All (λ e. IsCancelFree e.1) ms
    → (t : PoolActorState) × (run ms (new_pool env resource_class max_concurrency) ≡ some t)
      × (t.spawned ++ known (requests t.pending_requests) ≡ known (all_arrivals ms))
run-new_pool-schedule env resource_class max_concurrency ms off c =
    let s = new_pool env resource_class max_concurrency in
    let (t, e, order) =
      run-schedule ms s c (new_pool-IsSound env resource_class max_concurrency)
        (unfold new_pool in rw off) in
    (t, e, order ∙ unfold new_pool known in refl)
