-- ===== src/Runtime/Shutdown.antt =====
-- The pool of threads at its end: the tasks, and the joins of the destructor.
use beamline_caf.Base.{
  ℕ, suc, ◌+◌, ◌*◌, ◌<◌, ◌≡◌, ap, ◌∙◌, ℤ, pos_part, true, false, some, length, arith, ◌⊎◌, inl, inr,
  Bool-cases, length-append, Inevitably, zero-or-positive, measured, if◌then◌else◌,
}
use beamline_caf.Runtime.Threads.{
  checking, asleep, exited, running, ActorPool, returned, threw, after_task, end_task, wake,
  notified, notify_all, in_phase, is_checking, is_asleep, is_exited, is_running, Work, go, finish,
  notify_one, notify_nobody, broadcast, Reachable,
}
use beamline_caf.Runtime.Counting.{
  woken_counts, phases_add_up, thread-in_phase, counts_checking, counts_asleep, counts_running,
}
use beamline_caf.Runtime.Service.{IsServed, moves, turn_ind, Work-IsServed, Reachable-IsServed}

module _ {Task : Type 0} where
  -- Nothing is left to do: no task waits, every submitted one has ended, and if the destructor has
  -- begun, every thread has returned.
  pub record AtRest (s : ActorPool Task) : Type 0 where
    pub no_task : length s.queue ≡ 0
    pub all_ended : s.ended ≡ length s.submitted
    pub joined : s.stop ≡ true → in_phase is_exited s.threads ≡ length s.threads

  some_move :
      (s : ActorPool Task)
      → (0 < in_phase is_checking s.threads)
        ⊎ (0 < in_phase is_running s.threads)
        ⊎ (0 < s.notifications)
        ⊎ (s.broadcasting ≡ true)
      → (t : ActorPool Task) × Work s t
  some_move s (inl lt) =
      let (i, p, at, h) = thread-in_phase is_checking s.threads lt in
      (_, go i (at ∙ ap some (counts_checking p h)))
  some_move s (inr (inl lt)) =
      let (i, p, at, h) = thread-in_phase is_running s.threads lt in
      let (t, e) = counts_running p h in (_, finish i t returned (at ∙ ap some e))
  some_move s (inr (inr (inl lt))) = elim (zero-or-positive (in_phase is_asleep s.threads)) [
    | inl e ↦ (_, notify_nobody lt e)
    | inr some_asleep ↦
        let (i, p, at, h) = thread-in_phase is_asleep s.threads some_asleep in
        (_, notify_one i lt (at ∙ ap some (counts_asleep p h)))
  ]
  some_move s (inr (inr (inr e))) = (_, broadcast e)

  -- A pool with a thread that cannot do anything is at rest: no task is stuck behind a sleeper.
  pub Work-or-AtRest :
      {n : ℕ} (s : ActorPool Task)
      → 0 < n
      → IsServed n s
      → ((t : ActorPool Task) × Work s t) ⊎ AtRest s
  Work-or-AtRest s lt v = elim (Bool-cases s.broadcasting) [
    | inl e ↦ inl (some_move s (inr (inr (inr e))))
    | inr quiet ↦ elim (zero-or-positive (in_phase is_checking s.threads)) [
      | inr some_check ↦ inl (some_move s (inl some_check))
      | inl c ↦ elim (zero-or-positive (in_phase is_running s.threads)) [
        | inr some_run ↦ inl (some_move s (inr (inl some_run)))
        | inl r ↦ elim (zero-or-positive s.notifications) [
          | inr some_calls ↦ inl (some_move s (inr (inr (inl some_calls))))
          | inl k ↦ inr (idle quiet c r k)
        ]
      ]
    ]
  ]
    where
      idle :
          s.broadcasting ≡ false
          → in_phase is_checking s.threads ≡ 0
          → in_phase is_running s.threads ≡ 0
          → s.notifications ≡ 0
          → AtRest s
      idle quiet c r k =
          let sum = phases_add_up s.threads in
          let empty : length s.queue ≡ 0 = ground (arith, v.awaited, v.attended, v.has_size) in
          record {
            no_task = empty;
            all_ended = ground (arith, v.order, v.count, length-append s.started s.queue);
            joined = λ e. ground (arith, v.heard e);
          }

  -- What is left to do: it falls with every step of work.
  left_to_do : ActorPool Task → ℕ
  left_to_do s =
      2 * length s.queue
      + in_phase is_asleep s.threads
      + 2 * in_phase is_checking s.threads
      + 3 * in_phase is_running s.threads
      + 2 * s.notifications
      + (if s.broadcasting then suc (length s.threads) else 0)

  falls : {s t : ActorPool Task} → Work s t → left_to_do t < left_to_do s
  unfolding left_to_do end_task after_task wake notified notify_all
  falls {s} (go i at) =
      turn_ind (λ t. left_to_do t < left_to_do s) i s
        (λ _ e. ground (arith, moves i checking asleep s.threads at))
        (λ _ e. ground (arith, moves i checking exited s.threads at))
        (λ t rest e. ground (arith, moves i checking (running t) s.threads at))
  falls {s} (finish i t returned at) = ground (arith, moves i (running t) checking s.threads at)
  falls {s} (finish i t threw at) = ground (arith, moves i (running t) checking s.threads at)
  falls {s} (notify_one i lt at) = ground (arith, moves i asleep checking s.threads at)
  falls {s} (notify_nobody lt e) = ground arith
  falls {s} (broadcast e) = ground (arith, woken_counts s.threads, phases_add_up s.threads)

  -- A pool of at least one thread, in any state that it can reach: if no more tasks come and no
  -- thread wakes by chance, every schedule ends, and then every task submitted has ended, whether it
  -- returned or threw, and after the destructor has begun every thread has returned.
  pub Reachable-Inevitably :
      (concurrency : ℤ) (s : ActorPool Task)
      → 0 < pos_part concurrency
      → Reachable concurrency s
      → Inevitably Work AtRest s
  Reachable-Inevitably concurrency s some_thread r =
      measured Work AtRest (IsServed (pos_part concurrency)) left_to_do
        (λ t v. Work-or-AtRest t some_thread v) (λ t u v w. (Work-IsServed w v, falls w)) s
        (Reachable-IsServed concurrency s r)
