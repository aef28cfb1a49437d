-- ===== src/Pool/Overtaking.antt =====
-- The order of starting, whatever is refused or cancelled on the way.
use beamline_caf.Base.{
  ◌≡◌, refl, sym, ◌∙◌, ℤ, Bool, List, [], ◌∷◌, ◌++◌, String, some, keep, inl, inr, Bool-cases,
  Option-cases, append-nil, subst, ap,
}
use mathlib.Core.List.{append_assoc, Sublistᴰ}
use mathlib.Core.List.Sublistᴰ
use beamline_caf.Core.{StepRequest, ResourceClass}
use beamline_caf.Flags.{Env}
use beamline_caf.Pool.{
  Pending, PoolActorState, PoolMessage, create_block_executor, receive, on_cancel, new_pool,
  survives,
}
use beamline_caf.Pool.Cases.{receive_rule, arrivals, freed, of_result}
use beamline_caf.Pool.Load.{IsSound, receive-IsSound, new_pool-IsSound}
use beamline_caf.Pool.Cancel.{on_cancel-keep}
use beamline_caf.Pool.Order.{
  known, requests, schedule, on_execute-schedule_or_full, all_arrivals, run, known-append,
  known-cons_known, known-cons_unknown, serve-schedule,
}

keep-Sublistᴰ {ℓ} : {A : Type ℓ} (f : A → Bool) (xs : List A) → Sublistᴰ (keep f xs) xs
keep-Sublistᴰ f [] = Sublistᴰ.slnil
keep-Sublistᴰ f (x ∷ xs) = elim (Bool-cases (f x)) [
  | inl e ↦ rw e (Sublistᴰ.cons-cons refl (keep-Sublistᴰ f xs))
  | inr e ↦ rw e (Sublistᴰ.cons (keep-Sublistᴰ f xs))
]

known-Sublistᴰ :
    (ps qs : List Pending) → Sublistᴰ ps qs → Sublistᴰ (known (requests ps)) (known (requests qs))
known-Sublistᴰ ps qs Sublistᴰ.slnil = Sublistᴰ.refl (known [])
known-Sublistᴰ ps (q ∷ qs) (Sublistᴰ.cons d) =
    elim (Option-cases (create_block_executor q.request.type)) [
      | inl k ↦ rw (known-cons_unknown q.request (requests qs) k) (known-Sublistᴰ ps qs d)
      | inr (b, k) ↦
          rw (known-cons_known q.request (requests qs) k) (Sublistᴰ.cons (known-Sublistᴰ ps qs d))
    ]
known-Sublistᴰ (p ∷ ps) (q ∷ qs) (Sublistᴰ.cons-cons e d) =
    elim (Option-cases (create_block_executor q.request.type)) [
      | inl k ↦
          rw
            (
              known-cons_unknown p.request (requests ps) (rw e k),
              known-cons_unknown q.request (requests qs) k,
            )
            (known-Sublistᴰ ps qs d)
      | inr (b, k) ↦
          rw
            (
              known-cons_known p.request (requests ps) {b = b} (rw e k),
              known-cons_known q.request (requests qs) k,
            )
            (Sublistᴰ.cons-cons (ap (λ x. x.request) e) (known-Sublistᴰ ps qs d))
    ]

-- The schedule grows at most by what arrives.
abbrev Grows : PoolActorState → List StepRequest → PoolActorState → Type 0
Grows s rs t = Sublistᴰ (schedule t) (schedule s ++ known rs)

shorter : (xs ys : List StepRequest) {l : List StepRequest} → l ≡ xs → Sublistᴰ l (xs ++ ys)
shorter xs ys e =
    subst (λ l. Sublistᴰ l (xs ++ ys)) (append-nil xs ∙ sym e)
      (Sublistᴰ.append (Sublistᴰ.refl xs) (Sublistᴰ.nil-sublist ys))

equal : (xs : List StepRequest) {l : List StepRequest} → l ≡ xs → Sublistᴰ l xs
equal xs e = rw e (Sublistᴰ.refl xs)

on_cancel-Grows :
    (step_id : String) (s : PoolActorState) (rs : List StepRequest)
    → Grows s rs (on_cancel step_id s)
on_cancel-Grows step_id s rs = rw (on_cancel-keep step_id s) (
    subst (λ l. Sublistᴰ l (schedule s ++ known rs)) (append-nil _)
      (Sublistᴰ.append
        (Sublistᴰ.append (Sublistᴰ.refl s.spawned)
          (known-Sublistᴰ _ _ (keep-Sublistᴰ (survives step_id) s.pending_requests)))
        (Sublistᴰ.nil-sublist (known rs))))

receive-Grows :
    (env : Env) (m : PoolMessage) (s : PoolActorState)
    → IsSound s
    → (t : PoolActorState) × (receive env m s ≡ some t) × Grows s (arrivals m) t
receive-Grows env m s v =
    receive_rule (Grows s) env m s
      (λ _. shorter (schedule s) (known []) (serve-schedule s.pending_requests (freed s)))
      (shorter (schedule s) (known []) refl)
      (λ request sender _.
        let (t, eq, either) = on_execute-schedule_or_full env request sender s v in
        (
          t,
          eq,
          elim either [
            | inl (_, same) ↦ shorter (schedule s) (known (request ∷ [])) same
            | inr order ↦ equal (schedule s ++ known (request ∷ [])) order
          ],
        ))
      (λ step_id _. on_cancel-Grows step_id s [])

run-Grows :
    (ms : List (Env × PoolMessage)) (s : PoolActorState)
    → IsSound s
    → (t : PoolActorState) × (run ms s ≡ some t) × Grows s (all_arrivals ms) t
unfolding run
run-Grows [] s v = (s, refl, shorter (schedule s) (known []) refl)
run-Grows ((env, m) ∷ ms) s v =
    let (t, e, grows) = receive-Grows env m s v in
    let (t', e', grows') = run-Grows ms t (of_result (receive-IsSound env m s v) e) in
    (
      t',
      rw e e',
      Sublistᴰ.trans grows' (
          rw (known-append (arrivals m) (all_arrivals ms)) (
            subst (Sublistᴰ (schedule t ++ known (all_arrivals ms)))
              (append_assoc (schedule s) (known (arrivals m)) (known (all_arrivals ms)))
              (Sublistᴰ.append grows (Sublistᴰ.refl (known (all_arrivals ms)))))),
    )

-- With any flags, and whatever is cancelled or turned away on the way, the requests that have
-- started, followed by those of a known type in the queue, are the requests of a known type that
-- arrived, in their order of arrival with some left out: none starts unasked, twice or before one that
-- stood in front of it. Requests of an unknown type in the queue are not counted.
pub run-new_pool-Sublistᴰ :
    (env : Env) (resource_class : ResourceClass) (max_concurrency : ℤ)
    (ms : List (Env × PoolMessage))
    → (t : PoolActorState) × (run ms (new_pool env resource_class max_concurrency) ≡ some t)
      × Sublistᴰ (t.spawned ++ known (requests t.pending_requests)) (known (all_arrivals ms))
run-new_pool-Sublistᴰ env resource_class max_concurrency ms =
    let s = new_pool env resource_class max_concurrency in
    let (t, e, grows) = run-Grows ms s (new_pool-IsSound env resource_class max_concurrency) in
    (t, e, unfold new_pool known in grows)
