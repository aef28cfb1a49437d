-- ===== src/Pool/Refinement.antt =====
-- The pool actor against the desk.
use beamline_caf.Base.{ℕ, suc, ◌<◌, ◌≡◌, ◌∙◌, ℤ, pos_part, ◌≢◌, some, length, inl, inr}
use mathlib.Mathlib.Logic.Relation.ReflTransGenᴰ
use mathlib.Mathlib.Logic.Relation.{ReflTransGenᴰ}
use beamline_caf.Core.{ResourceClass}
use beamline_caf.Flags.{Env}
use beamline_caf.Pool.{PoolActorState, PoolMessage, bare, receive, new_pool}
use beamline_caf.Pool.Cases.{freed, on_done-serve, receive-done, receive_ind, of_result}
use beamline_caf.Pool.Load.{IsSound}
use beamline_caf.Pool.Order.{known, known-nil}
use beamline_caf.Pool.Executors.{
  System, Step, message, finish, Reach, here, next, IsBalanced, Reach-IsBalanced, initial,
  initial-IsBalanced, Counts, freed-Counts, running-le-max_concurrency,
}
use beamline_caf.Pool.Desk.{Desk, end_one, Moves, empty_desk, IsSaturated}
use beamline_caf.Pool.Moves.{desk_with, serve-Moves, on_cancel-Moves, on_execute-Moves}

abbrev pub desk : System → Desk
desk s = desk_with s.pool.pending_requests s.pool s.finished

-- What a message that is not "done" does.
message-Moves :
    (env : Env) (m : PoolMessage) (s t : System)
    → m ≢ bare "done"
    → receive env m s.pool ≡ some t.pool
    → t.finished ≡ s.finished
    → IsSound s.pool
    → Counts s.finished s.pool
    → Moves (pos_part s.pool.max_concurrency) (desk s) (desk t)
message-Moves env m s t other e same sound h =
    let n : ℕ = s.finished in
    let size : ℕ = pos_part s.pool.max_concurrency in
    let Good = λ (p : PoolActorState). Moves size (desk s) (desk_with p.pending_requests p n) in
    rw same (
      of_result {P = Good}
        (receive_ind Good env m s.pool (λ d. absurd (other d)) ReflTransGenᴰ.refl
          (λ request sender. on_execute-Moves n env request sender s.pool sound h)
          (λ step_id. on_cancel-Moves n step_id s.pool))
        e)

done-Moves :
    (env : Env) (s t : System)
    → s.finished < length s.pool.spawned
    → receive env (bare "done") s.pool ≡ some t.pool
    → t.finished ≡ suc s.finished
    → Counts s.finished s.pool
    → Moves (pos_part s.pool.max_concurrency) (desk s) (desk t)
done-Moves env s t running e one h =
    let n : ℕ = suc s.finished in
    rw one (
      of_result
        {P = λ p.
          Moves (pos_part s.pool.max_concurrency) (desk s) (desk_with p.pending_requests p n)}
        (
          _,
          receive-done env s.pool ∙ on_done-serve s.pool,
          ReflTransGenᴰ.head (end_one running) (
              serve-Moves n s.pool.pending_requests (freed s.pool)
                (freed-Counts s.finished s.pool running h)),
        )
        e)

Step-Moves :
    {size : ℤ} {s t : System}
    → IsBalanced size s
    → Step s t
    → Moves (pos_part size) (desk s) (desk t)
Step-Moves {size} {s} {t} v (message env m other e same) =
    rw (← v.has_size) (message-Moves env m s t other e same v.sound (v.sound.nonneg, v.counts))
Step-Moves {size} {s} {t} v (finish env running e one) =
    rw (← v.has_size) (done-Moves env s t running e one (v.sound.nonneg, v.counts))

Reach-Moves_from :
    {size : ℤ} {s t : System}
    → IsBalanced size s
    → Reach s t
    → Moves (pos_part size) (desk s) (desk t)
Reach-Moves_from v here = ReflTransGenᴰ.refl
Reach-Moves_from v (next r st) =
    ReflTransGenᴰ.trans (Reach-Moves_from v r) (Step-Moves (Reach-IsBalanced v r) st)

-- Every history of messages and finished steps is, seen as a line, a list of started requests and a
-- count of ended ones, a history of a desk with `max_concurrency` places, and it leaves nobody
-- waiting beside a free place.
pub Reach-Moves :
    (env : Env) (resource_class : ResourceClass) (max_concurrency : ℤ) (t : System)
    → Reach (initial env resource_class max_concurrency) t
    → Moves (pos_part max_concurrency) empty_desk (desk t)
      × IsSaturated (pos_part max_concurrency) (desk t)
Reach-Moves env resource_class max_concurrency t r = (
  unfold new_pool known in
      (Reach-Moves_from (initial-IsBalanced env resource_class max_concurrency) r),
  elim (running-le-max_concurrency env resource_class max_concurrency t r).2 [
    | inl none_waits ↦ inl (rw (none_waits, known-nil))
    | inr full ↦ inr full
  ],
)
