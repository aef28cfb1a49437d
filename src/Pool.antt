-- ===== src/Pool.antt =====
-- processor/src/worker_actor.cpp, `PoolActorState`: the pool's load and queue. One message is one
-- step. What a step does to other actors is the list of requests that it hands to new executors.
pub mod Lines
pub mod Drain
pub mod Cases
pub mod Load
pub mod Executors
pub mod Order
pub mod Cancel
pub mod Bound
pub mod Progress
pub mod Everywhere
pub mod Starts
pub mod Desk
pub mod Moves
pub mod Refinement
pub mod Overtaking
pub mod Gauges
pub mod Accounts
use beamline_caf.Base.{
  ℕ, zero, suc, ◌+◌, ℤ, pos, pos_part, inc, dec, ltb_ℤ, leb, leb_ℤ, Bool, true, false, ◌&&◌, not,
  List, [], ◌∷◌, ◌++◌, String, ◌=ˢ◌, Option, none, some, lookup, length, if◌then◌else◌, is_some,
}
use beamline_caf.Core.{StepRequest, ResourceClass}
use beamline_caf.Flags.{Env, is_queue_management_enabled}
use beamline_caf.Observability.Log.{Line}
use beamline_caf.Pool.Lines.{full_line, started_line, processing_line, unknown_line, cancel_line}

-- A queued request with the address of its sender.
pub record Pending : Type 0 where
  pub requester : ℕ
  pub request : StepRequest

-- `spawned` is the trace of the executors started so far, and `logged` that of the lines, newest
-- last; the source keeps no such fields.
pub record PoolActorState : Type 0 where
  pub resource_class : ResourceClass
  pub max_concurrency : ℤ
  pub current_load : ℤ
  pub pending_requests : List Pending
  pub max_queue_size : ℤ
  pub spawned : List StepRequest
  pub logged : List Line

-- What `create_block_executor` returns, but for the null pointer.
pub data Block : Type 0 where
  http_request fs_blob_put fs_blob_get : Block

unfoldable pub create_block_executor : String → Option Block
create_block_executor type =
    if type =ˢ "http.request"
    then some http_request
    else if type =ˢ "fs.blob_put"
    then some fs_blob_put
    else if type =ˢ "fs.blob_get"
    then some fs_blob_get
    else none

-- Requests arrive under the atom "execute", step ids under "cancel", and the atoms "metrics" and
-- "done" alone; `sender` stands for `current_sender()`.
pub data PoolMessage : Type 0 where
  with_request : (atom : String) (request : StepRequest) (sender : ℕ) → PoolMessage
  with_text : (atom step_id : String) → PoolMessage
  bare : (atom : String) → PoolMessage

-- The constructor. The bound on the queue is set once, from the flag at that time; 0 is unbounded.
unfoldable pub new_pool : Env → ResourceClass → ℤ → PoolActorState
new_pool env resource_class max_concurrency = record {
  resource_class = resource_class;
  max_concurrency = max_concurrency;
  current_load = pos 0;
  pending_requests = [];
  max_queue_size = if is_queue_management_enabled env then pos 1000 else pos 0;
  spawned = [];
  logged = [];
}

-- An executor actor is started and sent the request.
abbrev pub spawn : StepRequest → PoolActorState → PoolActorState
spawn request s = record s { spawned = s.spawned ++ request ∷ [] }

abbrev pub note : Line → PoolActorState → PoolActorState
note line s = record s { logged = s.logged ++ line ∷ [] }

-- The line of a request that is taken off the queue before `rest`.
abbrev pub noted : Pending → List Pending → PoolActorState → PoolActorState
noted p rest s = note (processing_line s.resource_class (length rest) p.request) s

-- `execute_step`, over the `process_pending` that it calls: an unknown type gives its slot back.
unfoldable pub execute_step_with :
    (PoolActorState → Option PoolActorState) → StepRequest → PoolActorState → Option PoolActorState
execute_step_with process_pending request s = elim (create_block_executor request.type) [
  | none ↦
      process_pending (note (unknown_line request) (record s { current_load = dec s.current_load }))
  | some executor ↦ some (spawn request s)
]

infixl 5 ◌>>=◌
abbrev pub ◌>>=◌ {ℓ κ} : {A : Type ℓ} {B : Type κ} → Option A → (A → Option B) → Option B
none >>= k = none
some a >>= k = k a

-- `process_pending` calls `execute_step`, which calls it again: both draw on one fuel, and `none`
-- is fuel that ran out.
unfoldable pub process_pending_from : ℕ → PoolActorState → Option PoolActorState
unfolding execute_step_with
process_pending_from zero s = none
process_pending_from (suc fuel) s = elim s.pending_requests [
  | [] ↦ some s
  | front ∷ rest ↦
      let popped : PoolActorState =
        noted front rest
          (record s { pending_requests = rest; current_load = inc s.current_load }) in
      let drained : Option PoolActorState =
        execute_step_with (process_pending_from fuel) front.request popped
        >>= process_pending_from fuel in
      if ltb_ℤ s.current_load s.max_concurrency then drained else some s
]

-- Every round takes one request off the queue, so the queue's length is fuel enough.
unfoldable pub process_pending : PoolActorState → Option PoolActorState
unfolding process_pending_from
process_pending s = process_pending_from (suc (length s.pending_requests)) s

unfoldable pub execute_step : StepRequest → PoolActorState → Option PoolActorState
unfolding execute_step_with process_pending
execute_step = execute_step_with process_pending

-- The queue is full: `max_queue_size_ > 0 && size() >= max_queue_size_`.
abbrev pub is_full : PoolActorState → Bool
is_full s =
    ltb_ℤ (pos 0) s.max_queue_size && leb (pos_part s.max_queue_size) (length s.pending_requests)

-- The handler of requests. A full queue turns the request away, with a log line and no answer.
unfoldable pub on_execute : Env → StepRequest → ℕ → PoolActorState → Option PoolActorState
unfolding execute_step
on_execute env request sender s =
    if leb_ℤ s.max_concurrency s.current_load
    then if is_queue_management_enabled env && is_full s
      then some
          (note (full_line s.resource_class (length s.pending_requests) s.max_queue_size request) s)
      else some (record s {
        pending_requests =
            s.pending_requests ++ record { requester = sender; request = request } ∷ [];
      })
    else execute_step request (
        note (started_line s.resource_class request)
          (record s { current_load = inc s.current_load }))

-- The test by which a queued request survives the cancellation of `step_id`.
unfoldable pub survives : String → Pending → Bool
survives step_id p = elim (lookup "step_id" p.request.inputs) [
  | none ↦ false
  | some own_id ↦ not (own_id =ˢ step_id)
]

-- The loop that moves the survivors to `new_queue`.
unfoldable pub cancel_loop : String → List Pending → List Pending → List Pending
unfolding survives
cancel_loop step_id [] new_queue = new_queue
cancel_loop step_id (p ∷ rest) new_queue =
    cancel_loop step_id rest (if survives step_id p then new_queue ++ p ∷ [] else new_queue)

unfoldable pub on_cancel : String → PoolActorState → PoolActorState
unfolding cancel_loop
on_cancel step_id s =
    note (cancel_line step_id)
      (record s { pending_requests = cancel_loop step_id s.pending_requests [] })

-- An executor has finished: its slot goes to the queue.
unfoldable pub on_done : PoolActorState → Option PoolActorState
unfolding process_pending
on_done s = process_pending (record s {
  current_load = if ltb_ℤ (pos 0) s.current_load then dec s.current_load else s.current_load;
})

-- One message. The metrics that the handlers publish go to observability, whose setters are
-- commented out, and leave the state as it is.
unfoldable pub receive : Env → PoolMessage → PoolActorState → Option PoolActorState
unfolding on_execute on_cancel on_done
receive env (with_request atom request sender) s =
    if atom =ˢ "execute" then on_execute env request sender s else some s
receive env (with_text atom step_id) s =
    if atom =ˢ "cancel" then some (on_cancel step_id s) else some s
receive env (bare atom) s =
    if atom =ˢ "metrics" then some s else if atom =ˢ "done" then on_done s else some s
