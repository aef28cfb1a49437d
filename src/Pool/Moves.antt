-- ===== src/Pool/Moves.antt =====
-- Each handler of the pool as moves of a desk.
use beamline_caf.Base.{
  ℕ, ◌≡◌, refl, pos_part, leb_ℤ, false, List, [], ◌∷◌, ◌++◌, String, none, some, keep, arith, inl,
  inr, Option-cases, append-nil,
}
use mathlib.Mathlib.Logic.Relation.ReflTransGenᴰ
use mathlib.Mathlib.Logic.Relation.{ReflTransGenᴰ}
use beamline_caf.Core.{StepRequest}
use beamline_caf.Flags.{Env}
use beamline_caf.Pool.{
  Block, Pending, PoolActorState, create_block_executor, on_execute, on_cancel, survives,
}
use beamline_caf.Pool.Drain.{serve, start, serve_ind}
use beamline_caf.Pool.Cases.{unserved, entry, unserved, on_execute_ind}
use beamline_caf.Pool.Load.{IsSound}
use beamline_caf.Pool.Cancel.{on_cancel-keep}
use beamline_caf.Pool.Order.{
  known, requests, known-append, known-nil, known-cons_known, known-cons_unknown, requests-append,
  idle,
}
use beamline_caf.Pool.Executors.{Counts, start-Counts}
use beamline_caf.Pool.Desk.{Desk, is_other, Move, accept, begin, withdraw, Moves}

-- The desk of a pool whose line is `q`: requests that have no executor never stand in line.
abbrev pub desk_with : List Pending → PoolActorState → ℕ → Desk
desk_with q s finished = record {
  waiting = known (requests q);
  started = s.spawned;
  ended = finished;
}

-- A pass over the queue is a run of beginnings.
pub serve-Moves :
    (n : ℕ) (q : List Pending) (s : PoolActorState)
    → Counts n s
    → Moves
        (pos_part s.max_concurrency)
        (desk_with q s n)
        (desk_with (serve q s).pending_requests (serve q s) n)
serve-Moves n =
    serve_ind
      (λ q s t.
        Counts n s
        → Moves (pos_part s.max_concurrency) (desk_with q s n) (desk_with t.pending_requests t n))
      (λ s h. ReflTransGenᴰ.refl) (λ p rest s e h. ReflTransGenᴰ.refl)
      (λ p rest s t b e k ih h.
        ReflTransGenᴰ.head
          (begin p.request (known (requests rest)) (known-cons_known p.request (requests rest) k)
            (ground (arith, h)))
          (ih (start-Counts n p s h)))
      (λ p rest s t e k ih h. rw (known-cons_unknown p.request (requests rest) k) (ih h))

requests-keep :
    (step_id : String) (q : List Pending)
    → known (requests (keep (survives step_id) q)) ≡ keep (is_other step_id) (known (requests q))
unfolding known survives is_other
requests-keep step_id [] = refl
requests-keep step_id (p ∷ q) = ground (arith, requests-keep step_id q)

-- What a cancellation does.
pub on_cancel-Moves :
    (n : ℕ) (step_id : String) (s : PoolActorState)
    → Moves
        (pos_part s.max_concurrency)
        (desk_with s.pending_requests s n)
        (desk_with (on_cancel step_id s).pending_requests (on_cancel step_id s) n)
on_cancel-Moves n step_id s =
    rw (on_cancel-keep step_id s, requests-keep step_id s.pending_requests)
      (ReflTransGenᴰ.single (withdraw step_id))

-- What a request does. One that is queued is accepted; one that starts is accepted too, at a desk
-- where nobody waits.
accepted :
    (p : Pending) (s : PoolActorState) (n : ℕ) {b : Block}
    → create_block_executor p.request.type ≡ some b
    → Move
        (pos_part s.max_concurrency)
        (desk_with s.pending_requests s n)
        (desk_with (s.pending_requests ++ p ∷ []) s n)
accepted p s n k =
    rw
      (
        requests-append s.pending_requests (p ∷ []),
        known-append (requests s.pending_requests) (p.request ∷ []),
        known-cons_known p.request [] k,
        known-nil,
      )
      (accept p.request)

ignored :
    (p : Pending) (s : PoolActorState)
    → create_block_executor p.request.type ≡ none
    → known (requests (s.pending_requests ++ p ∷ [])) ≡ known (requests s.pending_requests)
ignored p s k =
    rw
      (
        requests-append s.pending_requests (p ∷ []),
        known-append (requests s.pending_requests) (p.request ∷ []),
        known-cons_unknown p.request [] k,
        known-nil,
      )
      (append-nil (known (requests s.pending_requests)))

-- With a free slot nobody waits, so the request is the first of the line.
begun :
    (p : Pending) (s : PoolActorState) (n : ℕ) {b : Block}
    → IsSound s
    → Counts n s
    → leb_ℤ s.max_concurrency s.current_load ≡ false
    → create_block_executor p.request.type ≡ some b
    → Move
        (pos_part s.max_concurrency)
        (desk_with (s.pending_requests ++ p ∷ []) s n)
        (desk_with s.pending_requests (start p s) n)
begun p s n sound h free k =
    begin p.request (known (requests s.pending_requests))
      (rw (idle s sound free) (known-cons_known p.request [] k)) (ground (arith, h))

pub on_execute-Moves :
    (n : ℕ) (env : Env) (request : StepRequest) (sender : ℕ) (s : PoolActorState)
    → IsSound s
    → Counts n s
    → (t : PoolActorState) × (on_execute env request sender s ≡ some t)
      × Moves
          (pos_part s.max_concurrency)
          (desk_with s.pending_requests s n)
          (desk_with t.pending_requests t n)
on_execute-Moves n env request sender s sound h =
    let p : Pending = entry request sender in
    on_execute_ind
      (λ t.
        Moves (pos_part s.max_concurrency) (desk_with s.pending_requests s n)
          (desk_with t.pending_requests t n))
      env request sender s (λ _ _. ReflTransGenᴰ.refl)
      (λ _ _. elim (Option-cases (create_block_executor request.type)) [
        | inl k ↦ rw (ignored p s k) ReflTransGenᴰ.refl
        | inr (b, k) ↦ ReflTransGenᴰ.single (accepted p s n k)
      ])
      (λ b free k.
        ReflTransGenᴰ.tail (ReflTransGenᴰ.single (accepted p s n k)) (begun p s n sound h free k))
      (λ _ _. serve-Moves n s.pending_requests (unserved request s) h)
