-- ===== src/Runtime/Service.antt =====
-- A pool of threads in every state: its tasks, the order of their starts, and the threads that sleep.
use beamline_caf.Base.{
  ℕ, ◌+◌, ◌-◌, ◌<◌, ◌≤◌, ◌≡◌, refl, sym, ap, subst, ◌∙◌, ℤ, pos_part, true, false, List, [], ◌∷◌,
  ◌++◌, some, length, arith, ◌⊎◌, inl, inr, Bool-cases, List-cases, append_assoc, length-append,
}
use beamline_caf.Runtime.Threads.{
  Phase, checking, asleep, exited, running, ActorPool, Ending, returned, threw, new_actor_pool,
  thread, put, submit, turn, wakes, pass, after_task, end_task, wake, notified, begin_stop,
  notify_all, in_phase, is_checking, is_asleep, is_exited, is_running, Work, go, finish, notify_one,
  notify_nobody, broadcast, Step, work, spurious, call, call_inside, destroy, Reachable, fresh,
  after,
}
use beamline_caf.Runtime.Counting.{
  in_phase-put, length-put, length-copies, in_phase-copies, woken_counts,
}

module _ {Task : Type 0} where
  -- `order`: the tasks are started in the order of submission, none twice and none but those.
  -- `awaited`: while a thread sleeps, every queued task has a thread that is about to look for it
  -- or a notification under way. `heard`: a pool that stops with a sleeper is about to wake it.
  -- `attended`: after a thread has returned, a queued task still has a thread that comes back.
  pub record IsServed (size : ℕ) (s : ActorPool Task) : Type 0 where
    pub order : s.submitted ≡ s.started ++ s.queue
    pub count : length s.started ≡ in_phase is_running s.threads + s.ended
    pub has_size : length s.threads ≡ size
    pub awaited :
        (in_phase is_asleep s.threads ≡ 0)
        ⊎ (length s.queue ≤ in_phase is_checking s.threads + s.notifications)
    pub staying : s.stop ≡ false → in_phase is_exited s.threads ≡ 0
    pub attended :
        (in_phase is_exited s.threads ≡ 0)
        ⊎ (length s.queue ≡ 0)
        ⊎ (0 < in_phase is_running s.threads + in_phase is_checking s.threads)
    pub heard : s.stop ≡ true → (in_phase is_asleep s.threads ≡ 0) ⊎ (s.broadcasting ≡ true)

  -- One thread moves between two phases.
  pub moves :
      (i : ℕ) (p q : Phase Task) (ps : List (Phase Task))
      → thread i ps ≡ some p
      → (in_phase is_checking (put i q ps) + is_checking p
          ≡ in_phase is_checking ps + is_checking q)
        × (in_phase is_asleep (put i q ps) + is_asleep p ≡ in_phase is_asleep ps + is_asleep q)
        × (in_phase is_exited (put i q ps) + is_exited p ≡ in_phase is_exited ps + is_exited q)
        × (in_phase is_running (put i q ps) + is_running p ≡ in_phase is_running ps + is_running q)
        × (length (put i q ps) ≡ length ps)
  moves i p q ps h = (
    in_phase-put is_checking i p q ps h,
    in_phase-put is_asleep i p q ps h,
    in_phase-put is_exited i p q ps h,
    in_phase-put is_running i p q ps h,
    length-put i q ps,
  )

  new_actor_pool-IsServed :
      (concurrency : ℤ) → IsServed (pos_part concurrency) (new_actor_pool concurrency)
  unfolding new_actor_pool
  new_actor_pool-IsServed concurrency = record {
    order = refl;
    count = omega (arith, in_phase-copies {Task = Task} is_running (pos_part concurrency) refl);
    has_size = length-copies Task (pos_part concurrency);
    awaited = inl (in_phase-copies is_asleep (pos_part concurrency) refl);
    staying = λ _. in_phase-copies is_exited (pos_part concurrency) refl;
    attended = inl (in_phase-copies is_exited (pos_part concurrency) refl);
    heard = λ e. cc;
  }

  submit-IsServed :
      {n : ℕ} (t : Task) (s : ActorPool Task)
      → (s.stop ≡ false) ⊎ (0 < in_phase is_running s.threads)
      → IsServed n s
      → IsServed n (submit t s)
  unfolding submit
  submit-IsServed t s allowed v = record {
    order = ap (λ q. q ++ t ∷ []) v.order ∙ append_assoc s.started s.queue (t ∷ []);
    count = v.count;
    has_size = v.has_size;
    awaited = ground (arith, v.awaited, length-append s.queue (t ∷ []));
    staying = v.staying;
    attended = ground (arith, v.attended, v.staying, allowed);
    heard = v.heard;
  }

  -- It makes no difference how a task ends.
  pub end_task_either :
      (i : ℕ) (ending : Ending) (s : ActorPool Task) → end_task i returned s ≡ end_task i ending s
  unfolding end_task after_task
  end_task_either i returned s = refl
  end_task_either i threw s = refl

  return-IsServed :
      {n : ℕ} (i : ℕ) (t : Task) (s : ActorPool Task)
      → thread i s.threads ≡ some (running t)
      → IsServed n s
      → IsServed n (end_task i returned s)
  unfolding end_task after_task
  return-IsServed i t s at v =
      let m = moves i (running t) checking s.threads at in
      record {
        order = v.order;
        count = omega (arith, v.count);
        has_size = omega (arith, v.has_size);
        awaited = ground (arith, v.awaited);
        staying = λ e. ground (arith, v.staying e);
        attended = ground (arith, v.attended);
        heard = λ e. ground (arith, v.heard e);
      }

  wake-IsServed :
      {n : ℕ} (i : ℕ) (s : ActorPool Task)
      → thread i s.threads ≡ some asleep
      → IsServed n s
      → IsServed n (wake i s)
  unfolding wake
  wake-IsServed i s at v =
      let m = moves i asleep checking s.threads at in
      record {
        order = v.order;
        count = omega (arith, v.count);
        has_size = omega (arith, v.has_size);
        awaited = ground (arith, v.awaited);
        staying = λ e. ground (arith, v.staying e);
        attended = ground (arith, v.attended);
        heard = λ e. ground (arith, v.heard e);
      }

  notified-IsServed :
      {n : ℕ} (s : ActorPool Task)
      → (in_phase is_asleep s.threads ≡ 0)
        ⊎ (length s.queue ≤ in_phase is_checking s.threads + (s.notifications - 1))
      → IsServed n s
      → IsServed n (notified s)
  unfolding notified
  notified-IsServed s enough v = record {
    order = v.order;
    count = v.count;
    has_size = v.has_size;
    awaited = enough;
    staying = v.staying;
    attended = v.attended;
    heard = v.heard;
  }

  -- A notification that wakes a thread gives way to that thread.
  woken_one :
      (i : ℕ) (s : ActorPool Task)
      → thread i s.threads ≡ some asleep
      → 0 < s.notifications
      → (in_phase is_asleep s.threads ≡ 0)
        ⊎ (length s.queue ≤ in_phase is_checking s.threads + s.notifications)
      → (in_phase is_asleep (put i checking s.threads) ≡ 0)
        ⊎ (length s.queue ≤ in_phase is_checking (put i checking s.threads) + (s.notifications - 1))
  woken_one i s at lt awaited = ground (arith, moves i asleep checking s.threads at, awaited)

  begin_stop-IsServed : {n : ℕ} (s : ActorPool Task) → IsServed n s → IsServed n (begin_stop s)
  unfolding begin_stop
  begin_stop-IsServed s v = record {
    order = v.order;
    count = v.count;
    has_size = v.has_size;
    awaited = v.awaited;
    staying = λ e. cc;
    attended = v.attended;
    heard = λ e. inr refl;
  }

  notify_all-IsServed : {n : ℕ} (s : ActorPool Task) → IsServed n s → IsServed n (notify_all s)
  unfolding notify_all
  notify_all-IsServed s v =
      let m = woken_counts s.threads in
      record {
        order = v.order;
        count = omega (arith, v.count);
        has_size = omega (arith, v.has_size);
        awaited = inl m.0;
        staying = λ e. ground (arith, v.staying e);
        attended = ground (arith, v.attended);
        heard = λ e. inl m.0;
      }

  -- The three ways through the mutex.
  pub turn_ind {ℓ} :
      (P : ActorPool Task → Type ℓ) (i : ℕ) (s : ActorPool Task)
      → (s.stop ≡ false → s.queue ≡ [] → P (record s { threads = put i asleep s.threads }))
      → (s.stop ≡ true → s.queue ≡ [] → P (record s { threads = put i exited s.threads }))
      → ((t : Task) (rest : List Task)
          → s.queue ≡ t ∷ rest
          → P (record s {
            queue = rest;
            threads = put i (running t) s.threads;
            started = s.started ++ t ∷ [];
          }))
      → P (turn i s)
  unfolding turn wakes pass
  turn_ind P i s sleeps leaves takes = elim (Bool-cases (wakes s)) [
    | inl e ↦ rw e (elim (List-cases s.queue) [
      | inl empty ↦ subst (λ q. P (pass i q s)) (sym empty) (leaves (ground arith) empty)
      | inr (t, rest, filled) ↦ subst (λ q. P (pass i q s)) (sym filled) (takes t rest filled)
    ])
    | inr e ↦ rw e (sleeps (ground arith) (ground (arith, List-cases s.queue)))
  ]

  turn-IsServed :
      {n : ℕ} (i : ℕ) (s : ActorPool Task)
      → thread i s.threads ≡ some checking
      → IsServed n s
      → IsServed n (turn i s)
  turn-IsServed {n} i s at v =
      turn_ind (IsServed n) i s
        (λ open_ e.
          let m = moves i checking asleep s.threads at in
          record {
            order = v.order;
            count = omega (arith, v.count);
            has_size = omega (arith, v.has_size);
            awaited = inr (ground arith);
            staying = λ e. ground (arith, v.staying e);
            attended = ground (arith, v.staying open_);
            heard = λ e. cc;
          })
        (λ stopping e.
          let m = moves i checking exited s.threads at in
          record {
            order = v.order;
            count = omega (arith, v.count);
            has_size = omega (arith, v.has_size);
            awaited = inr (ground arith);
            staying = λ e. cc;
            attended = inr (inl (ground arith));
            heard = λ _. ground (arith, v.heard stopping);
          })
        (λ t rest e.
          let m = moves i checking (running t) s.threads at in
          record {
            order =
                v.order ∙ ap (λ q. s.started ++ q) e ∙ sym (append_assoc s.started (t ∷ []) rest);
            count = omega (arith, v.count, length-append s.started (t ∷ []));
            has_size = omega (arith, v.has_size);
            awaited = ground (arith, v.awaited);
            staying = λ e. ground (arith, v.staying e);
            attended = inr (inr (omega arith));
            heard = λ e. ground (arith, v.heard e);
          })

  pub Work-IsServed : {n : ℕ} {s t : ActorPool Task} → Work s t → IsServed n s → IsServed n t
  unfolding wake
  Work-IsServed {n} {s} (go i at) v = turn-IsServed i s at v
  Work-IsServed {n} {s} (finish i t ending at) v =
      subst (IsServed n) (end_task_either i ending s) (return-IsServed i t s at v)
  Work-IsServed {n} {s} (notify_one i lt at) v =
      notified-IsServed (wake i s) (woken_one i s at lt v.awaited) (wake-IsServed i s at v)
  Work-IsServed {n} {s} (notify_nobody lt none_asleep) v = notified-IsServed s (inl none_asleep) v
  Work-IsServed {n} {s} (broadcast e) v = notify_all-IsServed s v

  pub Step-IsServed : {n : ℕ} {s t : ActorPool Task} → Step s t → IsServed n s → IsServed n t
  Step-IsServed (work w) v = Work-IsServed w v
  Step-IsServed {n} {s} (spurious i at) v = wake-IsServed i s at v
  Step-IsServed {n} {s} (call t open_) v = submit-IsServed t s (inl open_) v
  Step-IsServed {n} {s} (call_inside i t u at) v =
      submit-IsServed u s (inr (ground (arith, moves i (running t) checking s.threads at))) v
  Step-IsServed {n} {s} (destroy open_) v = begin_stop-IsServed s v

  -- In every state that a pool can reach no task is lost or started twice, tasks start in the order
  -- of submission, and while a thread sleeps each queued task has a thread or a notification that is
  -- on its way to it.
  pub Reachable-IsServed :
      (concurrency : ℤ) (s : ActorPool Task)
      → Reachable concurrency s
      → IsServed (pos_part concurrency) s
  Reachable-IsServed concurrency _ fresh = new_actor_pool-IsServed concurrency
  Reachable-IsServed concurrency t (after {s = s} st r) =
      Step-IsServed st (Reachable-IsServed concurrency s r)
