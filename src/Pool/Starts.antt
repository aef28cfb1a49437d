-- ===== src/Pool/Starts.antt =====
-- The requests that a message starts.
use beamline_caf.Base.{
  ℕ, ◌+◌, ◌≤◌, ◌≡◌, refl, sym, ◌∙◌, List, [], ◌∷◌, ◌++◌, some, length, length-append, arith,
  append-nil,
}
use mathlib.Core.List.{append_assoc}
use beamline_caf.Core.{StepRequest}
use beamline_caf.Flags.{Env}
use beamline_caf.Pool.{Pending, PoolActorState, PoolMessage, receive, survives}
use beamline_caf.Pool.Drain.{serve, serve_ind}
use beamline_caf.Pool.Cases.{entry, unserved, freed, arrivals, on_execute_ind, receive_rule}
use beamline_caf.Pool.Cancel.{on_cancel-keep}
use beamline_caf.Pool.Bound.{length-keep-le}

-- `new` has started since `old` had, and at most `room` requests wait or are new.
pub record Starts (room : ℕ) (old : List StepRequest) (t : PoolActorState) : Type 0 where
  pub new : List StepRequest
  pub extends : t.spawned ≡ old ++ new
  pub trades : length t.pending_requests + length new ≤ room

nothing_new :
    {room : ℕ} (s t : PoolActorState)
    → t.spawned ≡ s.spawned
    → length t.pending_requests ≤ room
    → Starts room s.spawned t
nothing_new s t e le = record {
  new = [];
  extends = e ∙ sym (append-nil s.spawned);
  trades = omega (arith, le);
}

serve-Starts : (q : List Pending) (s : PoolActorState) → Starts (length q) s.spawned (serve q s)
serve-Starts =
    serve_ind (λ q s t. Starts (length q) s.spawned t) (λ s. nothing_new s _ refl (omega arith))
      (λ p rest s e. nothing_new s _ refl (omega arith))
      (λ p rest s t b e k ih. record {
        new = p.request ∷ ih.new;
        extends = ih.extends ∙ append_assoc s.spawned (p.request ∷ []) ih.new;
        trades = omega (arith, ih.trades);
      })
      (λ p rest s t e k ih. record {
        new = ih.new;
        extends = ih.extends;
        trades = omega (arith, ih.trades);
      })

widen :
    {n m : ℕ} {old : List StepRequest} {t : PoolActorState}
    → n ≤ m
    → Starts n old t
    → Starts m old t
widen le v = record { new = v.new; extends = v.extends; trades = omega (arith, le, v.trades) }

pub receive-Starts :
    (env : Env) (m : PoolMessage) (s : PoolActorState)
    → (t : PoolActorState) × (receive env m s ≡ some t)
      × Starts (length s.pending_requests + length (arrivals m)) s.spawned t
receive-Starts env m s =
    receive_rule (λ rs t. Starts (length s.pending_requests + length rs) s.spawned t) env m s
      (λ _. widen (omega arith) (serve-Starts s.pending_requests (freed s)))
      (nothing_new s s refl (omega arith))
      (λ request sender _.
        on_execute_ind (λ t. Starts (length s.pending_requests + 1) s.spawned t) env request sender
          s (λ _ _. nothing_new s _ refl (omega arith))
          (λ _ _.
            nothing_new s _ refl
              (omega (arith, length-append s.pending_requests (entry request sender ∷ []))))
          (λ _ _ _. record { new = request ∷ []; extends = refl; trades = omega arith })
          (λ _ _. widen (omega arith) (serve-Starts s.pending_requests (unserved request s))))
      (λ step_id _. rw (on_cancel-keep step_id s) (
        nothing_new s _ refl (omega (arith, length-keep-le (survives step_id) s.pending_requests))))
