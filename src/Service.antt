-- ===== src/Service.antt =====
-- processor/src/worker_actor.cpp, the pool actor together with its executor actors: what the one sends
-- the other. Each actor handles one message at a time; the pool's mailbox keeps the order in which
-- messages reach it.
pub mod Safety
pub mod Everywhere
pub mod Progress
pub mod Served
use beamline_caf.Base.{
  ℕ, zero, suc, Bool, true, false, List, [], ◌∷◌, ◌++◌, ◌=ˢ◌, some, ◌≡◌, ◌≢◌, if◌then◌else◌, map,
}
use mathlib.Mathlib.Logic.Relation.{ReflTransGenᴰ}
use beamline_caf.Core.{StepRequest, ResourceClass}
use beamline_caf.Base.{ℤ}
use beamline_caf.Flags.{Env}
use beamline_caf.Executor.{Host}
use beamline_caf.Executor.Messages.{Reaction, on_execute}
use beamline_caf.Pool.{
  PoolActorState, PoolMessage, with_request, with_text, bare, receive, new_pool,
}

-- `executors` are the requests of the executors that have been started and have not run, and `ended`
-- those that have, with what they did. `handled` counts the "done" that the pool has handled.
pub record Actors : Type 0 where
  pub pool : PoolActorState
  pub mailbox : List PoolMessage
  pub executors : List StepRequest
  pub ended : List (StepRequest × Reaction)
  pub handled : ℕ

unfoldable pub is_done : PoolMessage → Bool
is_done (bare atom) = atom =ˢ "done"
is_done _ = false

-- What an executor sends to the pool.
unfoldable pub done_messages : ℕ → List PoolMessage
done_messages zero = []
done_messages (suc n) = bare "done" ∷ done_messages n

-- What the actors do among themselves: the pool handles the first message of its mailbox and starts
-- executors, or an executor runs its step, in whatever world it finds, and reports.
pub data Inside (h : Host) (s : Actors) : Actors → Type 0 where
  handle :
      (env : Env) (m : PoolMessage) (rest : List PoolMessage) (p : PoolActorState)
      (new : List StepRequest)
      → s.mailbox ≡ m ∷ rest
      → receive env m s.pool ≡ some p
      → p.spawned ≡ s.pool.spawned ++ new
      → Inside h s (record s {
        pool = p;
        mailbox = rest;
        executors = s.executors ++ new;
        handled = if is_done m then suc s.handled else s.handled;
      })
  run :
      (env : Env) (before after : List StepRequest) (r : StepRequest) (w v : h.World) (x : Reaction)
      → s.executors ≡ before ++ r ∷ after
      → on_execute h env "execute" r w ≡ some (x, v)
      → Inside h s (record s {
        mailbox = s.mailbox ++ done_messages x.done_sent;
        executors = before ++ after;
        ended = (r, x) ∷ s.ended;
      })

-- The same, and the arrival of a message from outside; nobody else sends "done".
pub data Step (h : Host) (s : Actors) : Actors → Type 0 where
  inside : {t : Actors} → Inside h s t → Step h s t
  arrive :
      (m : PoolMessage) → m ≢ bare "done" → Step h s (record s { mailbox = s.mailbox ++ m ∷ [] })

abbrev pub new_actors : Env → ResourceClass → ℤ → Actors
new_actors env resource_class max_concurrency = record {
  pool = new_pool env resource_class max_concurrency;
  mailbox = [];
  executors = [];
  ended = [];
  handled = 0;
}

abbrev pub Reachable : Host → Env → ResourceClass → ℤ → Actors → Type 0
Reachable h env resource_class max_concurrency =
    ReflTransGenᴰ (Step h) (new_actors env resource_class max_concurrency)
