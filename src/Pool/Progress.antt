-- ===== src/Pool/Progress.antt =====
-- The way to the end of the queue, as long as executors report.
use beamline_caf.Base.{
  ℕ, suc, ◌+◌, ◌-◌, ◌<◌, ◌≤◌, ◌≡◌, refl, sym, ◌∙◌, ℤ, pos_part, List, [], ◌∷◌, some, length,
  length-append, append-nil, arith, ◌⊎◌, inl, inr, zero-or-positive, Inevitably, measured,
}
use beamline_caf.Core.{StepRequest, ResourceClass}
use beamline_caf.Flags.{Env}
use beamline_caf.Pool.{Pending, PoolActorState, bare, receive}
use beamline_caf.Pool.Drain.{serve, serve_ind}
use beamline_caf.Pool.Cases.{freed, on_done-serve, receive-done, of_result}
use beamline_caf.Pool.Order.{schedule, serve-schedule, known-nil}
use beamline_caf.Pool.Executors.{
  System, finish, Reach, IsBalanced, Step-IsBalanced, Reach-IsBalanced, initial, initial-IsBalanced,
}

-- One executor that runs sends its "done".
pub data Ends (s : System) : System → Type 0 where
  ends :
      {t : System} (env : Env)
      → s.finished < length s.pool.spawned
      → receive env (bare "done") s.pool ≡ some t.pool
      → t.finished ≡ suc s.finished
      → Ends s t

-- Nothing waits, nothing runs, and what has started is the list `all`, in that order.
pub record IsServed (all : List StepRequest) (s : System) : Type 0 where
  pub no_request : s.pool.pending_requests ≡ []
  pub none_runs : s.finished ≡ length s.pool.spawned
  pub in_order : s.pool.spawned ≡ all

-- A request leaves the queue for each executor that starts.
serve_trade :
    (q : List Pending) (s : PoolActorState)
    → length (serve q s).pending_requests + length (serve q s).spawned ≤ length q + length s.spawned
serve_trade =
    serve_ind (λ q s t. length t.pending_requests + length t.spawned ≤ length q + length s.spawned)
      (λ s. omega arith) (λ p rest s e. omega arith)
      (λ p rest s t b e k ih. omega (arith, ih, length-append s.spawned (p.request ∷ [])))
      (λ p rest s t e k ih. omega (arith, ih))

left_to_serve : System → ℕ
left_to_serve s = length s.pool.pending_requests + length s.pool.spawned - s.finished

abbrev Keeps : ℤ → List StepRequest → System → Type 0
Keeps size all s = IsBalanced size s × (schedule s.pool ≡ all)

Ends-or-IsServed :
    {size : ℤ} {all : List StepRequest} (env : Env) (s : System)
    → 0 < pos_part size
    → Keeps size all s
    → ((t : System) × Ends s t) ⊎ IsServed all s
Ends-or-IsServed env s lt (v, e) = elim (zero-or-positive (pos_part s.pool.current_load)) [
  | inr some_run ↦
      let t : System = record {
        pool = serve s.pool.pending_requests (freed s.pool);
        finished = suc s.finished;
      } in
      inl (
        t,
        ends env (omega (arith, v.counts)) (receive-done env s.pool ∙ on_done-serve s.pool) refl,
      )
  | inl none ↦
      let empty : s.pool.pending_requests ≡ [] = ground (arith, v.sound.busy, v.has_size) in
      inr (record {
        no_request = empty;
        none_runs = omega (arith, v.counts);
        in_order = rw (← e, empty, known-nil) (sym (append-nil s.pool.spawned));
      })
]

Ends-falls :
    {size : ℤ} {all : List StepRequest} (s t : System)
    → Keeps size all s
    → Ends s t
    → Keeps size all t × (left_to_serve t < left_to_serve s)
unfolding left_to_serve
Ends-falls {size} {all} s t (v, e) (ends env running r one) = (
  (
    Step-IsBalanced (finish env running r one) v,
    of_result {P = λ p. schedule p ≡ all}
        (
          _,
          receive-done env s.pool ∙ on_done-serve s.pool,
          serve-schedule s.pool.pending_requests (freed s.pool) ∙ e,
        )
        r,
  ),
  ground (
    arith,
    v.counts,
    serve_trade s.pool.pending_requests (freed s.pool),
    of_result {P = λ p. p ≡ serve s.pool.pending_requests (freed s.pool)}
        (_, receive-done env s.pool ∙ on_done-serve s.pool, refl) r,
  ),
)

-- A pool of at least one slot, in any state of any history: if no more messages come from outside,
-- every order in which the executors end leads to an empty queue with nothing running, where the
-- requests of known types that waited have started in order.
pub Reach-Inevitably :
    (env : Env) (resource_class : ResourceClass) (max_concurrency : ℤ) (t : System)
    → 0 < pos_part max_concurrency
    → Reach (initial env resource_class max_concurrency) t
    → Inevitably Ends (IsServed (schedule t.pool)) t
Reach-Inevitably env resource_class max_concurrency t lt r =
    measured Ends (IsServed (schedule t.pool)) (Keeps max_concurrency (schedule t.pool))
      left_to_serve (λ s k. Ends-or-IsServed env s lt k) (λ s u k m. Ends-falls s u k m) t
      (Reach-IsBalanced (initial-IsBalanced env resource_class max_concurrency) r, refl)
