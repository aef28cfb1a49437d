-- ===== src/Worker/Crew/Routes.antt =====
-- What a pool sees of the whole worker.
use beamline_caf.Base.{
  ℕ, ◌≡◌, ◌≢◌, refl, sym, ap, subst, false, true, List, [], ◌∷◌, String, none, keep, All, inl, inr,
  Bool-cases, eq_iff, ◌=ˢ◌, if◌then◌else◌,
}
use beamline_caf.Core.{WorkerConfig, StepRequest, ResourceClass, cpu, gpu, io}
use beamline_caf.Pool.{PoolMessage, with_request, with_text, bare}
use beamline_caf.Pool.Cases.{arrivals}
use beamline_caf.Pool.Everywhere.{Brings}
use beamline_caf.Pool.Order.{IsCancelFree}
use beamline_caf.Service.Served.{mailed}
use beamline_caf.Worker.{
  new_worker, initialize_pools, get_pool_for_resource, routed_class, on_execute, on_cancel,
}
use beamline_caf.Worker.Delivery.{on_execute-new_worker}
use beamline_caf.Worker.Family.{is_class}
use beamline_caf.Worker.Crew.{delegated, broadcast, sends, addressed, sent}

request_executed :
    (config : WorkerConfig) (request : StepRequest) (sender : ℕ) (class : ResourceClass)
    → sent config (with_request "execute" request sender) class ≡ (
        if is_class class (routed_class request)
        then with_request "execute" request sender ∷ []
        else [])
unfolding sends addressed delegated
request_executed config request sender class =
    ap (λ o. addressed class (delegated o (with_request "execute" request sender)))
      (on_execute-new_worker config request "").0

request_ignored :
    (config : WorkerConfig) (atom : String) (request : StepRequest) (sender : ℕ)
    (class : ResourceClass)
    → (atom =ˢ "execute") ≡ false
    → sent config (with_request atom request sender) class ≡ []
unfolding sends addressed on_execute delegated
request_ignored config atom request sender class e =
    ap
      (λ b. addressed class (
        delegated
          (if b
            then get_pool_for_resource (new_worker config).0.pools (routed_class request)
            else none)
          (with_request atom request sender)))
      e

text_cancelled :
    (config : WorkerConfig) (step_id : String) (class : ResourceClass)
    → sent config (with_text "cancel" step_id) class ≡ with_text "cancel" step_id ∷ []
unfolding sends addressed is_class on_cancel new_worker initialize_pools broadcast
text_cancelled config step_id cpu = refl
text_cancelled config step_id gpu = refl
text_cancelled config step_id io = refl

text_ignored :
    (config : WorkerConfig) (atom step_id : String) (class : ResourceClass)
    → (atom =ˢ "cancel") ≡ false
    → sent config (with_text atom step_id) class ≡ []
unfolding sends addressed on_cancel new_worker initialize_pools broadcast
text_ignored config atom step_id class e = rw (on_cancel, e) refl

-- The requests that the worker routes to a class.
abbrev pub of_class : ResourceClass → List StepRequest → List StepRequest
of_class class = keep (λ r. is_class class (routed_class r))

-- A pool gets a message only as it came: a request of its class, or a cancellation.
pub sent_ind {ℓ} :
    (P : PoolMessage → List PoolMessage → Type ℓ) (config : WorkerConfig) (class : ResourceClass)
    (m : PoolMessage)
    → ((other : PoolMessage) → of_class class (arrivals other) ≡ [] → P other [])
    → ((request : StepRequest) (sender : ℕ)
        → is_class class (routed_class request) ≡ true
        → P (with_request "execute" request sender) (with_request "execute" request sender ∷ []))
    → ((step_id : String) → P (with_text "cancel" step_id) (with_text "cancel" step_id ∷ []))
    → P m (sent config m class)
unfolding sends addressed arrivals
sent_ind P config class (with_request atom request sender) nothing request_for cancelled =
    elim (Bool-cases (atom =ˢ "execute")) [
      | inr e ↦
          rw (request_ignored config atom request sender class e)
            (nothing (with_request atom request sender) (rw (arrivals, e) refl))
      | inl e ↦
          subst
            (λ a.
              P (with_request a request sender) (sent config (with_request a request sender) class))
            (sym ((eq_iff atom "execute").0 e))
            (rw (request_executed config request sender class)
              (elim (Bool-cases (is_class class (routed_class request))) [
                | inl own ↦ rw own (request_for request sender own)
                | inr other ↦
                    rw other
                      (nothing (with_request "execute" request sender) (rw (arrivals, other) refl))
              ]))
    ]
sent_ind P config class (with_text atom step_id) nothing request_for cancelled =
    elim (Bool-cases (atom =ˢ "cancel")) [
      | inr e ↦
          rw (text_ignored config atom step_id class e) (nothing (with_text atom step_id) refl)
      | inl e ↦
          subst (λ a. P (with_text a step_id) (sent config (with_text a step_id) class))
            (sym ((eq_iff atom "cancel").0 e))
            (rw (text_cancelled config step_id class) (cancelled step_id))
    ]
sent_ind P config class (bare atom) nothing request_for cancelled = nothing (bare atom) refl

-- So it gets no "done" from the worker, and what holds of a message holds of what it becomes.
pub sent-not_done :
    (config : WorkerConfig) (class : ResourceClass) (m : PoolMessage)
    → All (λ n. n ≢ bare "done") (sent config m class)
sent-not_done config class m =
    sent_ind (λ _. All (λ n. n ≢ bare "done")) config class m (λ _ _. tt)
      (λ request sender _. ((λ e. cc), tt)) (λ step_id. ((λ e. cc), tt))

pub sent-Brings :
    (Q : StepRequest → Type 0) (config : WorkerConfig) (class : ResourceClass) (m : PoolMessage)
    → Brings Q m
    → All (Brings Q) (sent config m class)
sent-Brings Q config class m =
    sent_ind (λ n l. Brings Q n → All (Brings Q) l) config class m (λ _ _ _. tt)
      (λ request sender _ h. (h, tt)) (λ step_id h. (h, tt))

pub sent-IsCancelFree :
    (config : WorkerConfig) (class : ResourceClass) (m : PoolMessage)
    → IsCancelFree m
    → All IsCancelFree (sent config m class)
sent-IsCancelFree config class m =
    sent_ind (λ n l. IsCancelFree n → All IsCancelFree l) config class m (λ _ _ _. tt)
      (λ request sender _ h. (h, tt)) (λ step_id h. (h, tt))

pub mailed-sent :
    (config : WorkerConfig) (class : ResourceClass) (m : PoolMessage)
    → mailed (sent config m class) ≡ of_class class (arrivals m)
unfolding mailed arrivals
mailed-sent config class m =
    sent_ind (λ n l. mailed l ≡ of_class class (arrivals n)) config class m (λ _ e. sym e)
      (λ request sender own. rw own refl) (λ step_id. refl)
