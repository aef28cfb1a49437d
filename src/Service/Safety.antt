-- ===== src/Service/Safety.antt =====
-- A pool with its executors: the requests that have started, and the reports of their ends.
use beamline_caf.Base.{
  ℕ, zero, suc, ◌+◌, ◌≤◌, ◌≡◌, ◌≢◌, refl, sym, ◌∙◌, ap, subst, ℤ, pos_part, true, false, List, [],
  ◌∷◌, ◌++◌, some, length, length-append, arith, All, inl, inr, Bool-cases, Option-cases,
  if◌then◌else◌, eq_iff,
}
use mathlib.Core.List.{append_assoc, Permᴰ}
use mathlib.Core.List.Permᴰ
use mathlib.Core.Option.{none-ne-some}
use mathlib.Mathlib.Logic.Relation.{ReflTransGenᴰ}
use beamline_caf.Core.{StepRequest, ResourceClass}
use beamline_caf.Flags.{Env}
use beamline_caf.Executor.{Host, execute_with_retry}
use beamline_caf.Executor.Messages.{Reaction, after_step, on_execute}
use beamline_caf.Pool.{
  PoolActorState, PoolMessage, with_request, with_text, bare, receive, new_pool,
}
use beamline_caf.Pool.Executors.{
  running-le-max_concurrency, System, Reach, here, next, message, finish, initial,
}
use beamline_caf.Service.{
  Actors, is_done, done_messages, Inside, handle, run, Step, inside, arrive, Reachable,
}

-- The messages "done" in a mailbox.
unfoldable pub dones : List PoolMessage → ℕ
dones [] = 0
dones (m ∷ ms) = (if is_done m then 1 else 0) + dones ms

dones_done :
    {mailbox : List PoolMessage} (m : PoolMessage) (rest : List PoolMessage)
    → mailbox ≡ m ∷ rest
    → is_done m ≡ true
    → dones mailbox ≡ suc (dones rest)
unfolding dones
dones_done m rest e d = rw (e, dones, d) (omega arith)

dones_other :
    {mailbox : List PoolMessage} (m : PoolMessage) (rest : List PoolMessage)
    → mailbox ≡ m ∷ rest
    → is_done m ≡ false
    → dones mailbox ≡ dones rest
unfolding dones
dones_other m rest e d = rw (e, dones, d) (omega arith)

dones-append : (xs ys : List PoolMessage) → dones (xs ++ ys) ≡ dones xs + dones ys
unfolding dones
dones-append [] ys = omega arith
dones-append (x ∷ xs) ys = omega (arith, dones-append xs ys)

dones-done_messages : (n : ℕ) → dones (done_messages n) ≡ n
unfolding dones done_messages is_done
dones-done_messages zero = refl
dones-done_messages (suc n) = omega (arith, dones-done_messages n)

is_done-eq : (m : PoolMessage) → is_done m ≡ true → m ≡ bare "done"
unfolding is_done
is_done-eq (bare atom) e = ap bare ((eq_iff atom "done").0 e)
is_done-eq (with_request atom request sender) e = cc
is_done-eq (with_text atom step_id) e = cc

not-is_done : (m : PoolMessage) → is_done m ≡ false → m ≢ bare "done"
unfolding is_done
not-is_done m e same = let t : is_done m ≡ true = rw same refl in cc

-- The reaction is one that the handler of the executor has to the request, in some world.
abbrev pub IsReaction : Host → StepRequest × Reaction → Type 0
IsReaction h (r, x) =
    (env : Env) × (w : h.World) × (v : h.World) × (on_execute h env "execute" r w ≡ some (x, v))

pub done_sent_one :
    (h : Host) (env : Env) (r : StepRequest) (w v : h.World) (x : Reaction)
    → on_execute h env "execute" r w ≡ some (x, v)
    → x.done_sent ≡ 1
unfolding on_execute
done_sent_one h env r w v x e = elim (Option-cases (execute_with_retry h env r w)) [
  | inl undefined ↦ absurd (none-ne-some (x, v) (rw undefined at e))
  | inr ((result, u), k) ↦
      let same : some (after_step env r result, u) ≡ some (x, v) = rw k at e in
      let one : after_step env r result ≡ x = cc in sym (ap (λ y. y.done_sent) one)
]

pub dones_nil : dones [] ≡ 0
unfolding dones
dones_nil = refl

pub length-Permᴰ {ℓ} : {A : Type ℓ} {xs ys : List A} → Permᴰ xs ys → length xs ≡ length ys
length-Permᴰ Permᴰ.nil = refl
length-Permᴰ (Permᴰ.cons e p) = ap suc (length-Permᴰ p)
length-Permᴰ (Permᴰ.swap e f) = refl
length-Permᴰ (Permᴰ.trans p q) = length-Permᴰ p ∙ length-Permᴰ q

abbrev pub requests_of : List (StepRequest × Reaction) → List StepRequest
requests_of [] = []
requests_of ((r, x) ∷ es) = r ∷ requests_of es

pub length-requests_of : (es : List (StepRequest × Reaction)) → length (requests_of es) ≡ length es
length-requests_of [] = refl
length-requests_of ((r, x) ∷ es) = ap suc (length-requests_of es)

-- The pool as one that knows how many of its executors have reported.
abbrev pub system : Actors → System
system s = record { pool = s.pool; finished = s.handled }

-- What holds in every state.
pub record IsServing (h : Host) (start : System) (s : Actors) : Type 0 where
  pub reached : Reach start (system s)
  pub each_once : Permᴰ s.pool.spawned (s.executors ++ requests_of s.ended)
  pub reports : length s.ended ≡ s.handled + dones s.mailbox
  pub really : All (IsReaction h) s.ended

started_once :
    (old new executors ended all : List StepRequest)
    → all ≡ old ++ new
    → Permᴰ old (executors ++ ended)
    → Permᴰ all ((executors ++ new) ++ ended)
started_once old new executors ended all e p =
    subst (Permᴰ all) (sym (append_assoc executors new ended)) (
      Permᴰ.trans
        (subst (λ l. Permᴰ l (executors ++ (ended ++ new))) (sym e)
          (subst (Permᴰ (old ++ new)) (append_assoc executors ended new)
            (Permᴰ.append_right new p)))
        (Permᴰ.append_left executors (Permᴰ.append_comm ended new)))

ran_once :
    (before after ended all executors : List StepRequest) (r : StepRequest)
    → executors ≡ before ++ r ∷ after
    → Permᴰ all (executors ++ ended)
    → Permᴰ all ((before ++ after) ++ r ∷ ended)
ran_once before after ended all executors r e p =
    Permᴰ.trans
      (subst (Permᴰ all) (ap (λ l. l ++ ended) e ∙ append_assoc before (r ∷ after) ended) p)
      (Permᴰ.trans (Permᴰ.middle r before (after ++ ended)) (
        subst (λ l. Permᴰ (r ∷ l) ((before ++ after) ++ r ∷ ended))
          (append_assoc before after ended) (Permᴰ.symm (Permᴰ.middle r (before ++ after) ended))))

-- The moves keep it. A "done" that waits is one of an executor that the pool still counts.
handle-Reach :
    {h : Host} {start : System} (env : Env) (s : Actors) (m : PoolMessage) (rest : List PoolMessage)
    (p : PoolActorState)
    → s.mailbox ≡ m ∷ rest
    → receive env m s.pool ≡ some p
    → IsServing h start s
    → Reach start (record { pool = p; finished = if is_done m then suc s.handled else s.handled })
handle-Reach env s m rest p e got v = elim (Bool-cases (is_done m)) [
  | inl d ↦ rw d (
      next v.reached (
        finish env
          (omega (
            arith,
            v.reports,
            length-Permᴰ v.each_once,
            length-append s.executors (requests_of s.ended),
            length-requests_of s.ended,
            dones_done m rest e d,
          ))
          (rw (is_done-eq m d) at got) refl))
  | inr other ↦ rw other (next v.reached (message env m (not-is_done m other) got refl))
]

pub Inside-IsServing :
    {h : Host} {start : System} {s t : Actors}
    → Inside h s t
    → IsServing h start s
    → IsServing h start t
Inside-IsServing {h} {start} {s} (handle env m rest p new e got more) v = record {
  reached = handle-Reach env s m rest p e got v;
  each_once =
      started_once s.pool.spawned new s.executors (requests_of s.ended) p.spawned more v.each_once;
  reports = elim (Bool-cases (is_done m)) [
    | inl d ↦ rw d (omega (arith, v.reports, dones_done m rest e d))
    | inr other ↦ rw other (omega (arith, v.reports, dones_other m rest e other))
  ];
  really = v.really;
}
Inside-IsServing {h} {start} {s} (run env before after r w u x e ran) v = record {
  reached = v.reached;
  each_once =
      ran_once before after (requests_of s.ended) s.pool.spawned s.executors r e v.each_once;
  reports = omega (
    arith,
    v.reports,
    dones-append s.mailbox (done_messages x.done_sent),
    dones-done_messages x.done_sent,
    done_sent_one h env r w u x ran,
  );
  really = ((env, w, u, ran), v.really);
}

Step-IsServing :
    {h : Host} {start : System} {s t : Actors}
    → Step h s t
    → IsServing h start s
    → IsServing h start t
unfolding dones
Step-IsServing (inside i) v = Inside-IsServing i v
Step-IsServing {h} {start} {s} (arrive m other) v = record {
  reached = v.reached;
  each_once = v.each_once;
  reports = elim (Bool-cases (is_done m)) [
    | inl d ↦ absurd (other (is_done-eq m d))
    | inr same ↦
        omega (arith, v.reports, dones-append s.mailbox (m ∷ []), dones_other m [] refl same)
  ];
  really = v.really;
}

pub Reachable-IsServing :
    {h : Host} (env : Env) (resource_class : ResourceClass) (max_concurrency : ℤ) (s : Actors)
    → Reachable h env resource_class max_concurrency s
    → IsServing h (initial env resource_class max_concurrency) s
unfolding dones new_pool
Reachable-IsServing env resource_class max_concurrency s ReflTransGenᴰ.refl = record {
  reached = here;
  each_once = Permᴰ.nil;
  reports = omega arith;
  really = tt;
}
Reachable-IsServing env resource_class max_concurrency s (ReflTransGenᴰ.tail {b = t} r step) =
    Step-IsServing step (Reachable-IsServing env resource_class max_concurrency t r)

-- In every state of a pool and its executors, however their steps and the arrivals interleave and
-- whatever world each executor finds: each request that the pool has started is either the one of an
-- executor that has not run yet or has run, exactly once, with a reaction that the handler of the
-- executor really has to it; and the executors that have not run and the reports that the pool has
-- not handled are together at most `max_concurrency`.
pub Reachable-each_once :
    (h : Host) (env : Env) (resource_class : ResourceClass) (max_concurrency : ℤ) (s : Actors)
    → Reachable h env resource_class max_concurrency s
    → Permᴰ s.pool.spawned (s.executors ++ requests_of s.ended)
      × All (IsReaction h) s.ended
      × (length s.executors + dones s.mailbox ≤ pos_part max_concurrency)
Reachable-each_once h env resource_class max_concurrency s r =
    let v = Reachable-IsServing env resource_class max_concurrency s r in
    (
      v.each_once,
      v.really,
      omega (
        arith,
        v.reports,
        length-Permᴰ v.each_once,
        length-append s.executors (requests_of s.ended),
        length-requests_of s.ended,
        (running-le-max_concurrency env resource_class max_concurrency (system s) v.reached).1,
      ),
    )
