-- ===== src/Worker/Crew/Served.antt =====
-- processor/src/worker_actor.cpp, the whole worker: where its steps lead.
use beamline_caf.Base.{
  ◌<◌, ◌≡◌, refl, sym, ◌∙◌, ap, subst, pos_part, false, List, [], ◌∷◌, ◌++◌, All, All-append,
  Inevitably, measured, append_assoc, append-nil, keep-append, inl, inr, ◌⊎◌, List-cases,
}
use mathlib.Mathlib.Logic.Relation.{ReflTransGenᴰ}
use beamline_caf.Core.{WorkerConfig, StepRequest, ResourceClass}
use beamline_caf.Flags.{Env, is_queue_management_enabled}
use beamline_caf.Executor.{Host}
use beamline_caf.Pool.{PoolMessage}
use beamline_caf.Pool.Cases.{arrivals}
use beamline_caf.Pool.Everywhere.{Brings}
use beamline_caf.Pool.Order.{schedule, known, known-append, IsCancelFree}
use beamline_caf.Service
use beamline_caf.Service.{Actors}
use beamline_caf.Service.Everywhere.{Inside-HasAll, HasAll-append}
use beamline_caf.Service.Safety.{Reachable-IsServing}
use beamline_caf.Service.Progress.{IsFew, HasFew, IsAtRest, Keeps, Goes-on}
use beamline_caf.Service.Served.{
  mailed, mailed-append, accepted, IsOpen, HasRun, sound, Inside-IsOpen, at_rest,
  Reachable-IsUnbounded,
}
use beamline_caf.Worker.{routed_class}
use beamline_caf.Worker.Delivery.{size_of}
use beamline_caf.Worker.Family.{is_class, with_class_ind, one_or_all}
use beamline_caf.Worker.Crew.{sent, Crew, Inside, route, move, inside, Reachable}
use beamline_caf.Worker.Crew.Routes.{of_class, sent-Brings, sent-IsCancelFree, mailed-sent}
use beamline_caf.Worker.Crew.Work.{crew_work, Inside-crew_work}
use beamline_caf.Worker.Crew.Views.{Reachable-Reachable}

-- Of the class, the requests that its pool has accepted, and those in the mailbox of the worker.
abbrev pub due : ResourceClass → Crew → List StepRequest
due class s = accepted (s.actors class) ++ known (of_class class (mailed s.mailbox))

-- The worker and its actors have nothing left to do, and of each class the requests that have run are
-- those of its list.
abbrev pub HasServed : Host → (ResourceClass → List StepRequest) → Crew → Type 0
HasServed h all t =
    (t.mailbox ≡ []) × ((class : ResourceClass) → HasRun h (all class) (t.actors class))

regroup {ℓ} : {A : Type ℓ} (s a b c : List A) → (s ++ (a ++ b)) ++ c ≡ (s ++ a) ++ (b ++ c)
regroup s a b c = rw (append_assoc, append_assoc) (rw (append_assoc) refl)

due-route :
    (config : WorkerConfig) (class : ResourceClass) (a : Actors) (m : PoolMessage)
    (rest : List PoolMessage)
    → accepted (record a { mailbox = a.mailbox ++ sent config m class })
        ++ known (of_class class (mailed rest))
      ≡ accepted a ++ known (of_class class (mailed (m ∷ rest)))
unfolding mailed
due-route config class a m rest =
    rw
      (
        mailed-append a.mailbox (sent config m class),
        mailed-sent config class m,
        known-append (mailed a.mailbox) (of_class class (arrivals m)),
        keep-append (λ r. is_class class (routed_class r)) (arrivals m) (mailed rest),
        known-append (of_class class (arrivals m)) (of_class class (mailed rest)),
      )
      (regroup (schedule a.pool) (known (mailed a.mailbox)) (known (of_class class (arrivals m)))
        (known (of_class class (mailed rest))))

module _ (h : Host) (w : h.World) (env : Env) (config : WorkerConfig)
    (all : ResourceClass → List StepRequest) where
  -- What holds of the pool of a class, with what the worker's mailbox has for it.
  abbrev Held : List PoolMessage → ResourceClass → Actors → Type 0
  Held mailbox c a =
      HasFew a
      × All IsCancelFree a.mailbox
      × (accepted a ++ known (of_class c (mailed mailbox)) ≡ all c)

  record Holds (s : Crew) : Type 0 where
    reached : Reachable h env config s
    few : All (Brings IsFew) s.mailbox
    free : All IsCancelFree s.mailbox
    held : (class : ResourceClass) → Held s.mailbox class (s.actors class)

  -- Each pool has a slot, and was made while the flag for queue management was off.
  module _ (slots : (class : ResourceClass) → 0 < pos_part (size_of config class))
      (off : is_queue_management_enabled env ≡ false) where
    keeps :
        (s : Crew)
        → Holds s
        → (class : ResourceClass) → Keeps h w env class (size_of config class) (s.actors class)
    keeps s v class = (
      Reachable-IsServing env class (size_of config class) (s.actors class)
          (Reachable-Reachable h env config s v.reached class),
      (v.held class).0,
    )

    opened :
        (s : Crew)
        → Holds s
        → (class : ResourceClass) → IsOpen (accepted (s.actors class)) (s.actors class)
    opened s v class = record {
      not_cancelled = (v.held class).1;
      unbounded =
          Reachable-IsUnbounded h env class (size_of config class) (s.actors class) off
            (Reachable-Reachable h env config s v.reached class);
      in_order = refl;
    }

    move-Held :
        (s : Crew) (class : ResourceClass) (u : Actors)
        → Service.Inside h (s.actors class) u
        → Holds s
        → Held s.mailbox class u
    move-Held s class u i v =
        let k : Keeps h w env class (size_of config class) (s.actors class) = keeps s v class in
        let o =
          Inside-IsOpen i (sound h env class (size_of config class) (s.actors class) k.0)
            (opened s v class) in
        (
          Inside-HasAll IsFew i k.1,
          o.not_cancelled,
          ap (λ l. l ++ known (of_class class (mailed s.mailbox))) o.in_order ∙ (v.held class).2,
        )

    route-Held :
        (s : Crew) (m : PoolMessage) (rest : List PoolMessage)
        → s.mailbox ≡ m ∷ rest
        → Holds s
        → (class : ResourceClass)
        → Held rest class
            (record (s.actors class) { mailbox = (s.actors class).mailbox ++ sent config m class })
    route-Held s m rest e v class =
        let (few, free, order) = v.held class in
        let a = s.actors class in
        (
          HasAll-append IsFew a (sent config m class) few
              (sent-Brings IsFew config class m (subst (All (Brings IsFew)) e v.few).0),
          All-append IsCancelFree a.mailbox (sent config m class) free
              (sent-IsCancelFree config class m (subst (All IsCancelFree) e v.free).0),
          due-route config class a m rest
              ∙ ap (λ l. accepted a ++ known (of_class class (mailed l))) (sym e)
              ∙ order,
        )

    Inside-Holds : (s t : Crew) → Holds s → Inside h config s t → Holds t
    Inside-Holds s t v (route m rest e) = record {
      reached = ReflTransGenᴰ.tail v.reached (inside (route m rest e));
      few = (subst (All (Brings IsFew)) e v.few).1;
      free = (subst (All IsCancelFree) e v.free).1;
      held = route-Held s m rest e v;
    }
    Inside-Holds s t v (move class u i) = record {
      reached = ReflTransGenᴰ.tail v.reached (inside (move class u i));
      few = v.few;
      free = v.free;
      held = with_class_ind (Held s.mailbox) class u s.actors (move-Held s class u i v) v.held;
    }

    abbrev Goes : Crew → Type 0
    Goes s = ((t : Crew) × Inside h config s t) ⊎ HasServed h all s

    served :
        (s : Crew)
        → Holds s
        → s.mailbox ≡ []
        → ((class : ResourceClass) → IsAtRest h (s.actors class))
        → HasServed h all s
    unfolding mailed known
    served s v empty rest = (
      empty,
      λ class. at_rest h (all class) (s.actors class) (
        rest class,
        record {
          not_cancelled = (v.held class).1;
          unbounded = (opened s v class).unbounded;
          in_order =
              sym (append-nil (accepted (s.actors class)))
              ∙ ap (λ l. accepted (s.actors class) ++ known (of_class class (mailed l))) (sym empty)
              ∙ (v.held class).2;
        },
      ),
    )

    goes : (s : Crew) → Holds s → Goes s
    goes s v = elim (List-cases s.mailbox) [
      | inr (m, rest, e) ↦ inl (_, route m rest e)
      | inl empty ↦
          elim (one_or_all
            (λ c. Goes-on h w env c (size_of config c) (s.actors c) (slots c) (keeps s v c))) [
              | inl (class, (u, i)) ↦ inl (_, move class u i)
              | inr rest ↦ inr (served s v empty rest)
            ]
    ]

    ends : (s : Crew) → Holds s → Inevitably (Inside h config) (HasServed h all) s
    ends =
        measured (Inside h config) (HasServed h all) Holds (crew_work config) goes
          (λ s t v i. (Inside-Holds s t v i, Inside-crew_work i))

-- In any state of a worker whose pools each have a slot and were made while the flag for queue
-- management was off, if no more messages come from outside, no cancellation is on its way and the
-- steps have 0 to 56 retries, every order of the steps of the worker, its pools and their executors
-- leads to rest: all mailboxes and queues are empty, and the pool of each class has run, each exactly
-- once, the requests of known types that it had accepted and those that the worker's mailbox held for
-- its class.
pub Reachable-serves_everything :
    (h : Host) (w : h.World) (env : Env) (config : WorkerConfig) (s : Crew)
    → ((class : ResourceClass) → 0 < pos_part (size_of config class))
    → is_queue_management_enabled env ≡ false
    → Reachable h env config s
    → All (Brings IsFew) s.mailbox
    → All IsCancelFree s.mailbox
    → ((class : ResourceClass)
        → HasFew (s.actors class) × All IsCancelFree (s.actors class).mailbox)
    → Inevitably (Inside h config) (HasServed h (λ class. due class s)) s
Reachable-serves_everything h w env config s slots off r few free actors =
    ends h w env config (λ class. due class s) slots off s
      (record {
        reached = r;
        few = few;
        free = free;
        held = λ class. ((actors class).0, (actors class).1, refl);
      })
