-- ===== src/Pool/Everywhere.antt =====
-- What holds of every request that comes holds of every request that waits or has started.
use beamline_caf.Base.{
  subst, ℕ, ◌≡◌, Bool, List, [], ◌∷◌, ◌++◌, String, some, keep, All, All-append, inl, inr,
  Bool-cases,
}
use beamline_caf.Core.{StepRequest}
use beamline_caf.Flags.{Env}
use beamline_caf.Pool.{
  Pending, PoolActorState, PoolMessage, with_request, receive, on_execute, on_cancel, survives,
}
use beamline_caf.Pool.Drain.{serve, serve_ind}
use beamline_caf.Pool.Cases.{receive_rule, entry, unserved, freed, on_execute_ind}
use beamline_caf.Pool.Cancel.{on_cancel-keep}

All-keep {ℓ κ} :
    {A : Type ℓ} (P : A → Type κ) (f : A → Bool) (xs : List A) → All P xs → All P (keep f xs)
All-keep P f [] h = tt
All-keep P f (x ∷ xs) (h, hs) = elim (Bool-cases (f x)) [
  | inl e ↦ rw e (h, All-keep P f xs hs)
  | inr e ↦ rw e (All-keep P f xs hs)
]

module _ (Q : StepRequest → Type 0) where
  -- What waits in the pool and what has started there.
  pub record IsAll (s : PoolActorState) : Type 0 where
    pub queued : All (λ p. Q p.request) s.pending_requests
    pub begun : All Q s.spawned

  begun-append : (r : StepRequest) (rs : List StepRequest) → Q r → All Q rs → All Q (rs ++ r ∷ [])
  begun-append r rs e h = All-append Q rs (r ∷ []) h (e, tt)

  serve-IsAll :
      (q : List Pending) (s : PoolActorState)
      → All (λ p. Q p.request) q
      → All Q s.spawned
      → IsAll (serve q s)
  serve-IsAll =
      serve_ind (λ q s t. All (λ p. Q p.request) q → All Q s.spawned → IsAll t)
        (λ s hq hs. record { queued = tt; begun = hs })
        (λ p rest s e hq hs. record { queued = hq; begun = hs })
        (λ p rest s t b e k ih hq hs. ih hq.1 (begun-append p.request s.spawned hq.0 hs))
        (λ p rest s t e k ih hq hs. ih hq.1 hs)

  on_execute-IsAll :
      (env : Env) (request : StepRequest) (sender : ℕ) (s : PoolActorState)
      → Q request
      → IsAll s
      → (t : PoolActorState) × (on_execute env request sender s ≡ some t) × IsAll t
  on_execute-IsAll env request sender s e v =
      on_execute_ind IsAll env request sender s
        (λ _ _. record { queued = v.queued; begun = v.begun })
        (λ _ _. record {
          queued =
              All-append (λ p. Q p.request) s.pending_requests (entry request sender ∷ []) v.queued
                (e, tt);
          begun = v.begun;
        })
        (λ _ _ _. record { queued = v.queued; begun = begun-append request s.spawned e v.begun })
        (λ _ _. serve-IsAll s.pending_requests (unserved request s) v.queued v.begun)

  on_cancel-IsAll : (step_id : String) (s : PoolActorState) → IsAll s → IsAll (on_cancel step_id s)
  on_cancel-IsAll step_id s v = rw (on_cancel-keep step_id s) (record {
    queued = All-keep (λ p. Q p.request) (survives step_id) s.pending_requests v.queued;
    begun = v.begun;
  })

  -- What the message brings has `Q`.
  abbrev pub Brings : PoolMessage → Type 0
  Brings (with_request atom request sender) = Q request
  Brings _ = Unit

  pub receive-IsAll :
      (env : Env) (m : PoolMessage) (s : PoolActorState)
      → Brings m
      → IsAll s
      → (t : PoolActorState) × (receive env m s ≡ some t) × IsAll t
  receive-IsAll env m s q v =
      receive_rule (λ _. IsAll) env m s
        (λ _. serve-IsAll s.pending_requests (freed s) v.queued v.begun) v
        (λ request sender e. on_execute-IsAll env request sender s (subst Brings e q) v)
        (λ step_id _. on_cancel-IsAll step_id s v)
