-- ===== src/Runtime/Threads.antt =====
-- processor/src/runtime/actor_pools.hpp, `ActorPool`: threads that take tasks from one queue under a
-- mutex. A step is what happens between two releases of the mutex; the steps of the threads and of
-- the callers come in any order.
use beamline_caf.Base.{
  ℕ, zero, suc, ◌+◌, ◌-◌, ◌<◌, ◌≡◌, ℤ, pos_part, Bool, true, false, not, ◌||◌, List, [], ◌∷◌, ◌++◌,
  map, Option, none, some, is_empty, length, if◌then◌else◌,
}

-- Where a thread of `run` stands: before the test of the wait, asleep on the condition variable, in
-- a task, or returned.
pub data Phase (Task : Type 0) : Type 0 where
  checking asleep exited : Phase Task
  running : Task → Phase Task

-- `notifications` counts the calls of `submit` between their push and their `notify_one`, and
-- `broadcasting` is the destructor between `stop_ = true` and `notify_all`. `submitted`, `started`
-- and `ended` are the history of the pool; the source keeps no such fields.
pub record ActorPool (Task : Type 0) : Type 0 where
  pub queue : List Task
  pub stop : Bool
  pub threads : List (Phase Task)
  pub notifications : ℕ
  pub broadcasting : Bool
  pub submitted : List Task
  pub started : List Task
  pub ended : ℕ

-- How a task ends.
pub data Ending : Type 0 where
  returned threw : Ending

module _ {Task : Type 0} where
  unfoldable pub copies : ℕ → List (Phase Task)
  copies zero = []
  copies (suc n) = checking ∷ copies n

  -- The constructor: a negative count makes no thread.
  unfoldable pub new_actor_pool : ℤ → ActorPool Task
  unfolding copies
  new_actor_pool concurrency = record {
    queue = [];
    stop = false;
    threads = copies (pos_part concurrency);
    notifications = 0;
    broadcasting = false;
    submitted = [];
    started = [];
    ended = 0;
  }

  -- Thread `i`, and the list with that thread in another phase.
  unfoldable pub thread : ℕ → List (Phase Task) → Option (Phase Task)
  thread i [] = none
  thread zero (p ∷ ps) = some p
  thread (suc i) (p ∷ ps) = thread i ps

  unfoldable pub put : ℕ → Phase Task → List (Phase Task) → List (Phase Task)
  put i q [] = []
  put zero q (p ∷ ps) = q ∷ ps
  put (suc i) q (p ∷ ps) = p ∷ put i q ps

  -- `submit`, up to the release of the mutex.
  unfoldable pub submit : Task → ActorPool Task → ActorPool Task
  submit t s = record s {
    queue = s.queue ++ t ∷ [];
    notifications = suc s.notifications;
    submitted = s.submitted ++ t ∷ [];
  }

  -- The condition of the wait: `stop_ || !q_.empty()`.
  unfoldable pub wakes : ActorPool Task → Bool
  wakes s = s.stop || not (is_empty s.queue)

  -- Thread `i` has passed the wait: `if (stop_ && q_.empty()) return`, else it takes a task. With an
  -- empty queue only `stop_` lets it pass.
  unfoldable pub pass : ℕ → List Task → ActorPool Task → ActorPool Task
  unfolding put
  pass i [] s = record s { threads = put i exited s.threads }
  pass i (t ∷ rest) s = record s {
    queue = rest;
    threads = put i (running t) s.threads;
    started = s.started ++ t ∷ [];
  }

  -- One hold of the mutex by thread `i` in `run`.
  unfoldable pub turn : ℕ → ActorPool Task → ActorPool Task
  unfolding wakes pass
  turn i s = if wakes s then pass i s.queue s else record s { threads = put i asleep s.threads }

  -- Where a thread goes after its task: an exception is swallowed.
  unfoldable pub after_task : Ending → Phase Task
  after_task returned = checking
  after_task threw = checking

  unfoldable pub end_task : ℕ → Ending → ActorPool Task → ActorPool Task
  unfolding put after_task
  end_task i ending s = record s {
    threads = put i (after_task ending) s.threads;
    ended = suc s.ended;
  }

  -- A thread on the condition variable wakes and tests the condition again.
  unfoldable pub wake : ℕ → ActorPool Task → ActorPool Task
  unfolding put
  wake i s = record s { threads = put i checking s.threads }

  unfoldable pub notified : ActorPool Task → ActorPool Task
  notified s = record s { notifications = s.notifications - 1 }

  -- The destructor: the flag is set under the mutex, then everyone on the variable is woken.
  unfoldable pub begin_stop : ActorPool Task → ActorPool Task
  begin_stop s = record s { stop = true; broadcasting = true }

  unfoldable pub woken : Phase Task → Phase Task
  woken asleep = checking
  woken checking = checking
  woken exited = exited
  woken (running t) = running t

  unfoldable pub notify_all : ActorPool Task → ActorPool Task
  unfolding woken
  notify_all s = record s { broadcasting = false; threads = map woken s.threads }

  -- `queue_depth`.
  unfoldable pub queue_depth : ActorPool Task → ℕ
  queue_depth s = length s.queue

  -- How many threads are in a phase.
  unfoldable pub in_phase : (Phase Task → ℕ) → List (Phase Task) → ℕ
  in_phase f [] = 0
  in_phase f (p ∷ ps) = f p + in_phase f ps

  abbrev pub is_checking : Phase Task → ℕ
  is_checking p = elim p [ checking ↦ 1 | _ ↦ 0 ]

  abbrev pub is_asleep : Phase Task → ℕ
  is_asleep p = elim p [ asleep ↦ 1 | _ ↦ 0 ]

  abbrev pub is_exited : Phase Task → ℕ
  is_exited p = elim p [ exited ↦ 1 | _ ↦ 0 ]

  abbrev pub is_running : Phase Task → ℕ
  is_running p = elim p [ running t ↦ 1 | _ ↦ 0 ]

  -- What the pool does by itself. `notify_one` wakes some thread that sleeps, if there is one.
  pub data Work (s : ActorPool Task) : ActorPool Task → Type 0 where
    go : (i : ℕ) → thread i s.threads ≡ some checking → Work s (turn i s)
    finish :
        (i : ℕ) (t : Task) (ending : Ending)
        → thread i s.threads ≡ some (running t)
        → Work s (end_task i ending s)
    notify_one :
        (i : ℕ)
        → 0 < s.notifications
        → thread i s.threads ≡ some asleep
        → Work s (notified (wake i s))
    notify_nobody : 0 < s.notifications → in_phase is_asleep s.threads ≡ 0 → Work s (notified s)
    broadcast : s.broadcasting ≡ true → Work s (notify_all s)

  -- A step: the pool's own work, a spurious wake-up, a call of `submit` or the destructor. Only a
  -- task that runs may submit once the destructor has begun.
  pub data Step (s : ActorPool Task) : ActorPool Task → Type 0 where
    work : {t : ActorPool Task} → Work s t → Step s t
    spurious : (i : ℕ) → thread i s.threads ≡ some asleep → Step s (wake i s)
    call : (t : Task) → s.stop ≡ false → Step s (submit t s)
    call_inside : (i : ℕ) (t u : Task) → thread i s.threads ≡ some (running t) → Step s (submit u s)
    destroy : s.stop ≡ false → Step s (begin_stop s)

  -- The states of a pool of a given size.
  pub data Reachable (concurrency : ℤ) : ActorPool Task → Type 0 where
    fresh : Reachable concurrency (new_actor_pool concurrency)
    after : {s t : ActorPool Task} → Step s t → Reachable concurrency s → Reachable concurrency t
