-- ===== src/Service/Served.antt =====
-- A pool with its executors: the requests that come, from the mailbox to the executors.
use beamline_caf.Base.{
  ℕ, ◌<◌, ◌≡◌, refl, sym, ◌∙◌, ap, subst, ℤ, pos_part, false, List, [], ◌∷◌, ◌++◌, All, All-append,
  Inevitably, Inevitably-map, zero, suc, append-nil,
}
use mathlib.Core.List.{append_assoc, Permᴰ}
use mathlib.Mathlib.Logic.Relation.{ReflTransGenᴰ}
use beamline_caf.Core.{StepRequest, ResourceClass}
use beamline_caf.Flags.{Env, is_queue_management_enabled}
use beamline_caf.Executor.{Host}
use beamline_caf.Pool.{PoolMessage, new_pool}
use beamline_caf.Pool.Cases.{arrivals, of_result}
use beamline_caf.Pool.Load.{IsSound}
use beamline_caf.Pool.Order.{
  schedule, known, known-append, known-nil, IsCancelFree, IsUnbounded, receive-schedule,
  receive-IsUnbounded,
}
use beamline_caf.Pool.Executors.{Reach-IsBalanced, initial-IsBalanced, initial}
use beamline_caf.Service.{Actors, done_messages, Inside, handle, run, inside, arrive, Reachable}
use beamline_caf.Service.Safety.{requests_of, IsServing, Reachable-IsServing}
use beamline_caf.Service.Progress.{HasFew, IsAtRest, rests_with}

-- The requests that a mailbox brings.
unfoldable pub mailed : List PoolMessage → List StepRequest
mailed [] = []
mailed (m ∷ ms) = arrivals m ++ mailed ms

pub mailed-append : (xs ys : List PoolMessage) → mailed (xs ++ ys) ≡ mailed xs ++ mailed ys
unfolding mailed
mailed-append [] ys = refl
mailed-append (x ∷ xs) ys = rw (mailed-append xs ys) (sym (append_assoc (arrivals x) _ _))

mailed-done_messages : (n : ℕ) → mailed (done_messages n) ≡ []
unfolding mailed done_messages arrivals
mailed-done_messages zero = refl
mailed-done_messages (suc n) = mailed-done_messages n

-- The requests of known types that have started, that wait, and that are in the mailbox, in order.
abbrev pub accepted : Actors → List StepRequest
accepted s = schedule s.pool ++ known (mailed s.mailbox)

-- No cancellation is on its way, the queue has no bound, and the accepted requests are `all`.
pub record IsOpen (all : List StepRequest) (s : Actors) : Type 0 where
  pub not_cancelled : All IsCancelFree s.mailbox
  pub unbounded : IsUnbounded s.pool
  pub in_order : accepted s ≡ all

IsCancelFree-done_messages : (n : ℕ) → All IsCancelFree (done_messages n)
unfolding done_messages
IsCancelFree-done_messages zero = tt
IsCancelFree-done_messages (suc n) = (tt, IsCancelFree-done_messages n)

pub sound :
    (h : Host) (env : Env) (resource_class : ResourceClass) (max_concurrency : ℤ) (s : Actors)
    → IsServing h (initial env resource_class max_concurrency) s
    → IsSound s.pool
sound h env resource_class max_concurrency s v =
    (Reach-IsBalanced (initial-IsBalanced env resource_class max_concurrency) v.reached).sound

pub Inside-IsOpen :
    {h : Host} {all : List StepRequest} {s t : Actors}
    → Inside h s t
    → IsSound s.pool
    → IsOpen all s
    → IsOpen all t
unfolding mailed
Inside-IsOpen {all} {s} (handle env m rest p new e got more) v o =
    let free : All IsCancelFree (m ∷ rest) = subst (All IsCancelFree) e o.not_cancelled in
    record {
      not_cancelled = free.1;
      unbounded = of_result {P = IsUnbounded} (receive-IsUnbounded env m s.pool o.unbounded) got;
      in_order =
          ap (λ l. l ++ known (mailed rest))
            (of_result {P = λ q. schedule q ≡ schedule s.pool ++ known (arrivals m)}
              (receive-schedule env m s.pool free.0 v o.unbounded) got)
          ∙ append_assoc (schedule s.pool) (known (arrivals m)) (known (mailed rest))
          ∙ ap (λ l. schedule s.pool ++ l) (sym (known-append (arrivals m) (mailed rest)))
          ∙ ap (λ l. schedule s.pool ++ known (mailed l)) (sym e)
          ∙ o.in_order;
    }
Inside-IsOpen {s} (run env before after r w u x e ran) v o = record {
  not_cancelled =
      All-append IsCancelFree s.mailbox (done_messages x.done_sent) o.not_cancelled
        (IsCancelFree-done_messages x.done_sent);
  unbounded = o.unbounded;
  in_order =
      ap (λ l. schedule s.pool ++ known l)
        (mailed-append s.mailbox (done_messages x.done_sent)
          ∙ rw (mailed-done_messages x.done_sent) (append-nil (mailed s.mailbox)))
      ∙ o.in_order;
}

-- The pool is made while the flag is off.
pub Reachable-IsUnbounded :
    (h : Host) (env : Env) (resource_class : ResourceClass) (max_concurrency : ℤ) (s : Actors)
    → is_queue_management_enabled env ≡ false
    → Reachable h env resource_class max_concurrency s
    → IsUnbounded s.pool
unfolding new_pool
Reachable-IsUnbounded h env resource_class max_concurrency s off ReflTransGenᴰ.refl = rw off refl
Reachable-IsUnbounded h env resource_class max_concurrency s off
      (ReflTransGenᴰ.tail {b = t} r (arrive m other)) =
    Reachable-IsUnbounded h env resource_class max_concurrency t off r
Reachable-IsUnbounded h env resource_class max_concurrency s off
      (ReflTransGenᴰ.tail {b = t} r (inside (run env' before after q w u x e ran))) =
    Reachable-IsUnbounded h env resource_class max_concurrency t off r
Reachable-IsUnbounded h env resource_class max_concurrency s off
      (ReflTransGenᴰ.tail {b = t} r (inside (handle env' m rest p new e got more))) =
    of_result {P = IsUnbounded}
      (receive-IsUnbounded env' m t.pool
        (Reachable-IsUnbounded h env resource_class max_concurrency t off r))
      got

-- In any state of a pool with a slot and its executors, if no more messages come from outside and the
-- steps have 0 to 56 retries, every order of the actors' steps leads to rest: the mailbox and the queue
-- are empty, every executor has run, and each request that has started has run exactly once.
pub Reachable-rests :
    (h : Host) (w : h.World) (env : Env) (resource_class : ResourceClass) (max_concurrency : ℤ)
    (s : Actors)
    → 0 < pos_part max_concurrency
    → Reachable h env resource_class max_concurrency s
    → HasFew s
    → Inevitably (Inside h) (IsAtRest h) s
Reachable-rests h w env resource_class max_concurrency s lt r few =
    Inevitably-map (λ t p. p.0) s
      (rests_with h w env resource_class max_concurrency (λ _. Unit {0}) (λ _ _ _ _ _. tt) lt s
        (Reachable-IsServing env resource_class max_concurrency s r, few) tt)

-- At rest, and the requests that have run are those of the list.
abbrev pub HasRun : Host → List StepRequest → Actors → Type 0
HasRun h all t = IsAtRest h t × Permᴰ all (requests_of t.ended)

pub at_rest :
    (h : Host) (all : List StepRequest) (t : Actors) → IsAtRest h t × IsOpen all t → HasRun h all t
unfolding mailed
at_rest h all t (rest, o) = (rest, subst (λ l. Permᴰ l (requests_of t.ended)) started rest.all_run)
  where
    started : t.pool.spawned ≡ all
    started =
        rw (← o.in_order, rest.no_message, rest.no_request, known-nil)
          (sym (append-nil (t.pool.spawned ++ []) ∙ append-nil t.pool.spawned))

-- A pool with at least one slot, made while the flag for queue management was off, and its executors,
-- in any state that they reach, with no cancellation on its way and steps of 0 to 56 retries: if no
-- more messages come, every order of their steps leads to rest, and there the requests that have run,
-- each exactly once, are all that had started or waited or were in the mailbox, but for those of an
-- unknown type.
pub Reachable-runs_everything :
    (h : Host) (w : h.World) (env : Env) (resource_class : ResourceClass) (max_concurrency : ℤ)
    (s : Actors)
    → 0 < pos_part max_concurrency
    → is_queue_management_enabled env ≡ false
    → Reachable h env resource_class max_concurrency s
    → HasFew s
    → All IsCancelFree s.mailbox
    → Inevitably (Inside h) (HasRun h (accepted s)) s
Reachable-runs_everything h w env resource_class max_concurrency s lt off r few free =
    Inevitably-map (at_rest h (accepted s)) s (
      rests_with h w env resource_class max_concurrency (IsOpen (accepted s))
        (λ t u k m o. Inside-IsOpen m (sound h env resource_class max_concurrency t k.0) o) lt s
        (Reachable-IsServing env resource_class max_concurrency s r, few)
        (record {
          not_cancelled = free;
          unbounded = Reachable-IsUnbounded h env resource_class max_concurrency s off r;
          in_order = refl;
        }))
