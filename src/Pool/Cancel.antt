-- ===== src/Pool/Cancel.antt =====
-- What a cancellation takes out of the queue.
use beamline_caf.Base.{
  keep-append, ◌≡◌, ◌∙◌, sym, refl, ap, true, List, [], ◌∷◌, ◌++◌, String, some, arith, Bool-cases,
  ◌≢◌, if◌then◌else◌, keep, lookup, eq_iff, inl, inr, Option-cases,
}
use mathlib.Core.List.{append_assoc, append-nil}
use mathlib.Core.Bool.{false≢true}
use beamline_caf.Pool.Lines.{cancel_line}
use beamline_caf.Pool.{Pending, PoolActorState, note, survives, cancel_loop, on_cancel}

cancel_loop-keep :
    (step_id : String) (q acc : List Pending)
    → cancel_loop step_id q acc ≡ acc ++ keep (survives step_id) q
unfolding cancel_loop
cancel_loop-keep step_id [] acc = rw append-nil
cancel_loop-keep step_id (p ∷ q) acc = elim (Bool-cases (survives step_id p)) [
  | inl e ↦ rw e (cancel_loop-keep step_id q (acc ++ p ∷ []) ∙ append_assoc acc (p ∷ []) _)
  | inr e ↦ rw e (cancel_loop-keep step_id q acc)
]

-- A cancellation leaves in the queue, in their order, the requests that carry another step id, and
-- touches neither the load nor what runs; it logs one line.
pub on_cancel-keep :
    (step_id : String) (s : PoolActorState)
    → on_cancel step_id s
      ≡ note
          (cancel_line step_id)
          (record s { pending_requests = keep (survives step_id) s.pending_requests })
unfolding on_cancel
on_cancel-keep step_id s =
    ap (λ q. note (cancel_line step_id) (record s { pending_requests = q }))
      (cancel_loop-keep step_id s.pending_requests [])

-- The request carries a step id, and it is not the cancelled one.
abbrev pub HasOtherId : String → Pending → Type 0
HasOtherId step_id p =
    (own_id : String) × (lookup "step_id" p.request.inputs ≡ some own_id) × (own_id ≢ step_id)

survives-HasOtherId :
    (step_id : String) (p : Pending) → survives step_id p ≡ true → HasOtherId step_id p
unfolding survives
survives-HasOtherId step_id p h = elim (Option-cases (lookup "step_id" p.request.inputs)) [
  | inl e ↦ absurd (false≢true (rw (e, survives) at h))
  | inr (own_id, e) ↦ (own_id, e, λ same. ground (arith, eq_iff own_id step_id))
]

survives_of_HasOtherId :
    (step_id : String) (p : Pending) → HasOtherId step_id p → survives step_id p ≡ true
unfolding survives
survives_of_HasOtherId step_id p (own_id, e, other) = ground (arith, eq_iff own_id step_id)

-- What a queue loses to a cancellation: requests of that step and requests without a step id go, those
-- with another step id stay, in their order.
pub data Loses (step_id : String) : List Pending → List Pending → Type 0 where
  nothing : Loses step_id [] []
  stays :
      (p : Pending) (q r : List Pending)
      → HasOtherId step_id p
      → Loses step_id q r
      → Loses step_id (p ∷ q) (p ∷ r)
  goes :
      (p : Pending) (q r : List Pending)
      → ¬ HasOtherId step_id p
      → Loses step_id q r
      → Loses step_id (p ∷ q) r

keep-Loses : (step_id : String) (q : List Pending) → Loses step_id q (keep (survives step_id) q)
keep-Loses step_id [] = nothing
keep-Loses step_id (p ∷ q) = elim (Bool-cases (survives step_id p)) [
  | inl e ↦ rw e (stays p q _ (survives-HasOtherId step_id p e) (keep-Loses step_id q))
  | inr e ↦ rw e (
      goes p q _ (λ h. false≢true (sym e ∙ survives_of_HasOtherId step_id p h))
        (keep-Loses step_id q))
]

-- A cancellation takes out of the queue the requests that carry the named step id and those that carry
-- none; every other one stays, in the same order; and it changes nothing else of the pool but the log.
pub on_cancel-Loses :
    (step_id : String) (s : PoolActorState)
    → Loses step_id s.pending_requests (on_cancel step_id s).pending_requests
      × (record (on_cancel step_id s) { pending_requests = s.pending_requests; logged = s.logged }
          ≡ s)
on_cancel-Loses step_id s =
    rw (on_cancel-keep step_id s) (keep-Loses step_id s.pending_requests, refl)

-- A request that carries another step id keeps its place: what is dropped stood before or after.
pub on_cancel_keeps_other :
    (step_id : String) (s : PoolActorState) (before after : List Pending) (p : Pending)
    → s.pending_requests ≡ before ++ p ∷ after
    → HasOtherId step_id p
    → (on_cancel step_id s).pending_requests
      ≡ keep (survives step_id) before ++ p ∷ keep (survives step_id) after
on_cancel_keeps_other step_id s before after p e other =
    rw (on_cancel-keep step_id s, e)
      (keep-append (survives step_id) before (p ∷ after)
        ∙ ap
            (λ b.
              keep (survives step_id) before
              ++ (if b then p ∷ keep (survives step_id) after else keep (survives step_id) after))
            (survives_of_HasOtherId step_id p other))
