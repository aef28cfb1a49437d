-- ===== src/Pool/Cases.antt =====
-- What a message does to the pool, case by case: the rule by which the invariants are proved.
use beamline_caf.Base.{
  List, ℕ, ◌≡◌, refl, ◌∙◌, subst, pos, inc, dec, dec-inc, ltb_ℤ, leb_ℤ, true, false, ◌&&◌, [], ◌∷◌,
  ◌++◌, String, ◌=ˢ◌, Option, none, some, arith, inl, inr, Bool-cases, Option-cases, if◌then◌else◌,
  eq_iff, ap, length,
}
use beamline_caf.Core.{StepRequest}
use beamline_caf.Flags.{Env, is_queue_management_enabled}
use beamline_caf.Pool.{
  Pending, PoolActorState, PoolMessage, note, with_request, with_text, bare, Block,
  create_block_executor, execute_step_with, execute_step, process_pending, is_full, on_execute,
  on_cancel, on_done, receive,
}
use beamline_caf.Pool.Lines.{full_line, started_line, unknown_line}
use beamline_caf.Pool.Drain.{serve, start, process_pending-serve}

abbrev pub entry : StepRequest → ℕ → Pending
entry request sender = record { requester = sender; request = request }

abbrev pub enqueue : Pending → PoolActorState → PoolActorState
enqueue p s = record s { pending_requests = s.pending_requests ++ p ∷ [] }

-- The state in which a finished executor has given its slot back.
abbrev pub freed : PoolActorState → PoolActorState
freed s = record s {
  current_load = if ltb_ℤ (pos 0) s.current_load then dec s.current_load else s.current_load;
}

-- What a request leaves in the log when the queue is full, when it has a slot, and when it has a slot
-- and an unknown type.
abbrev pub turned_away : StepRequest → PoolActorState → PoolActorState
turned_away request s =
    note (full_line s.resource_class (length s.pending_requests) s.max_queue_size request) s

abbrev pub greeted : StepRequest → PoolActorState → PoolActorState
greeted request s = note (started_line s.resource_class request) s

abbrev pub unserved : StepRequest → PoolActorState → PoolActorState
unserved request s = note (unknown_line request) (greeted request s)

execute_step-known :
    (request : StepRequest) (s : PoolActorState) {b : Block}
    → create_block_executor request.type ≡ some b
    → execute_step request (record s { current_load = inc s.current_load })
      ≡ some (start (entry request 0) s)
unfolding execute_step
execute_step-known request s e = rw (e, execute_step_with)

execute_step-unknown :
    (request : StepRequest) (s : PoolActorState)
    → create_block_executor request.type ≡ none
    → execute_step request (record s { current_load = inc s.current_load })
      ≡ some (serve s.pending_requests (note (unknown_line request) s))
unfolding execute_step
execute_step-unknown request s e =
    rw (e, execute_step_with)
      (ap (λ n. process_pending (note (unknown_line request) (record s { current_load = n })))
          (dec-inc s.current_load)
        ∙ process_pending-serve (note (unknown_line request) s))

-- A request is refused, queued, started, or dropped for its unknown type.
pub on_execute_ind {ℓ} :
    (P : PoolActorState → Type ℓ) (env : Env) (request : StepRequest) (sender : ℕ)
    (s : PoolActorState)
    → (is_queue_management_enabled env ≡ true → is_full s ≡ true → P (turned_away request s))
    → (leb_ℤ s.max_concurrency s.current_load ≡ true
        → is_queue_management_enabled env && is_full s ≡ false
        → P (enqueue (entry request sender) s))
    → ((b : Block)
        → leb_ℤ s.max_concurrency s.current_load ≡ false
        → create_block_executor request.type ≡ some b
        → P (start (entry request sender) (greeted request s)))
    → (leb_ℤ s.max_concurrency s.current_load ≡ false
        → create_block_executor request.type ≡ none
        → P (serve s.pending_requests (unserved request s)))
    → (t : PoolActorState) × (on_execute env request sender s ≡ some t) × P t
unfolding on_execute
on_execute_ind P env request sender s refused queued started dropped =
    elim (Bool-cases (leb_ℤ s.max_concurrency s.current_load)) [
      | inl busy ↦ elim (Bool-cases (is_queue_management_enabled env && is_full s)) [
        | inl full ↦ (turned_away request s, rw (busy, full), refused (ground arith) (ground arith))
        | inr room ↦ (enqueue (entry request sender) s, rw (busy, room), queued busy room)
      ]
      | inr free ↦ elim (Option-cases (create_block_executor request.type)) [
        | inl e ↦ (
          serve s.pending_requests (unserved request s),
          rw free (execute_step-unknown request (greeted request s) e),
          dropped free e,
        )
        | inr (b, e) ↦ (
          start (entry request sender) (greeted request s),
          rw free (execute_step-known request (greeted request s) e),
          started b free e,
        )
      ]
    ]

pub on_done-serve : (s : PoolActorState) → on_done s ≡ some (serve s.pending_requests (freed s))
unfolding on_done
on_done-serve s = process_pending-serve (freed s)

-- The requests that a message brings.
unfoldable pub arrivals : PoolMessage → List StepRequest
arrivals (with_request atom request sender) = if atom =ˢ "execute" then request ∷ [] else []
arrivals _ = []

-- A message is a "done", a request, a cancellation, or ignored: the rule for properties that depend
-- on what it brings.
pub receive_rule {ℓ} :
    (P : List StepRequest → PoolActorState → Type ℓ) (env : Env) (m : PoolMessage)
    (s : PoolActorState)
    → (m ≡ bare "done" → P [] (serve s.pending_requests (freed s)))
    → P [] s
    → ((request : StepRequest) (sender : ℕ)
        → m ≡ with_request "execute" request sender
        → (t : PoolActorState) × (on_execute env request sender s ≡ some t) × P (request ∷ []) t)
    → ((step_id : String) → m ≡ with_text "cancel" step_id → P [] (on_cancel step_id s))
    → (t : PoolActorState) × (receive env m s ≡ some t) × P (arrivals m) t
unfolding receive arrivals
receive_rule P env (with_request atom request sender) s done ignored executed cancelled =
    elim (Bool-cases (atom =ˢ "execute")) [
      | inl e ↦
          let (t, eq, p) =
            executed request sender
              (ap (λ a. with_request a request sender) ((eq_iff atom "execute").0 e)) in
          (t, rw e eq, rw e p)
      | inr e ↦ (s, rw e, rw e ignored)
    ]
receive_rule P env (with_text atom step_id) s done ignored executed cancelled =
    elim (Bool-cases (atom =ˢ "cancel")) [
      | inl e ↦ (
        on_cancel step_id s,
        rw e,
        cancelled step_id (ap (λ a. with_text a step_id) ((eq_iff atom "cancel").0 e)),
      )
      | inr e ↦ (s, rw e, ignored)
    ]
receive_rule P env (bare atom) s done ignored executed cancelled =
    elim (Bool-cases (atom =ˢ "metrics")) [
      | inl e ↦ (s, rw e, ignored)
      | inr e ↦ elim (Bool-cases (atom =ˢ "done")) [
        | inl d ↦ (
          serve s.pending_requests (freed s),
          rw (e, d) (on_done-serve s),
          done (ap bare ((eq_iff atom "done").0 d)),
        )
        | inr d ↦ (s, rw (e, d), ignored)
      ]
    ]

-- The rule for the other properties.
pub receive_ind {ℓ} :
    (P : PoolActorState → Type ℓ) (env : Env) (m : PoolMessage) (s : PoolActorState)
    → (m ≡ bare "done" → P (serve s.pending_requests (freed s)))
    → P s
    → ((request : StepRequest) (sender : ℕ)
        → (t : PoolActorState) × (on_execute env request sender s ≡ some t) × P t)
    → ((step_id : String) → P (on_cancel step_id s))
    → (t : PoolActorState) × (receive env m s ≡ some t) × P t
receive_ind P env m s done ignored executed cancelled =
    receive_rule (λ _. P) env m s done ignored (λ request sender e. executed request sender)
      (λ step_id e. cancelled step_id)

pub receive-done : (env : Env) (s : PoolActorState) → receive env (bare "done") s ≡ on_done s
unfolding receive
receive-done env s = refl

-- A property of the result is one of whatever the result is equal to.
pub of_result {ℓ} :
    {P : PoolActorState → Type ℓ} {o : Option PoolActorState} {u : PoolActorState}
    → (t : PoolActorState) × (o ≡ some t) × P t
    → o ≡ some u
    → P u
of_result {P} {u} (t, e, p) h = let same : t ≡ u = cc in subst P same p
