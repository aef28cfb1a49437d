-- ===== src/Pool/Drain.antt =====
-- The loop of `process_pending` and its recursion through `execute_step`, against one pass over
-- the queue.
use beamline_caf.Base.{
  ℕ, zero, suc, ◌≤◌, ◌<◌, ◌≡◌, refl, ap, sym, ◌∙◌, subst, inc, dec-inc, ltb_ℤ, true, false, List,
  [], ◌∷◌, none, some, length, arith, inl, inr, Bool-cases, Option-cases, if◌then◌else◌,
}
use beamline_caf.Pool.{
  Pending, PoolActorState, Block, create_block_executor, spawn, note, noted, execute_step_with,
  ◌>>=◌, process_pending_from, process_pending,
}
use beamline_caf.Pool.Lines.{unknown_line}

-- One pass: requests start in order while a slot is free, and those of an unknown type are
-- dropped without taking one.
unfoldable pub serve : List Pending → PoolActorState → PoolActorState
serve [] s = record s { pending_requests = [] }
serve (p ∷ rest) s =
    let next : PoolActorState = elim (create_block_executor p.request.type) [
      | none ↦ serve rest (note (unknown_line p.request) (noted p rest s))
      | some executor ↦
          serve rest
            (spawn p.request (record (noted p rest s) { current_load = inc s.current_load }))
    ] in
    if ltb_ℤ s.current_load s.max_concurrency
    then next
    else record s { pending_requests = p ∷ rest }

abbrev pub start : Pending → PoolActorState → PoolActorState
start p s = spawn p.request (record s { current_load = inc s.current_load })

-- A request of an unknown type leaves two lines.
abbrev pub dropped : Pending → List Pending → PoolActorState → PoolActorState
dropped p rest s = note (unknown_line p.request) (noted p rest s)

-- A step of the pass, by its case.
pub serve-busy :
    (p : Pending) (rest : List Pending) (s : PoolActorState)
    → ltb_ℤ s.current_load s.max_concurrency ≡ false
    → serve (p ∷ rest) s ≡ record s { pending_requests = p ∷ rest }
unfolding serve
serve-busy p rest s h = rw h

pub serve-known :
    (p : Pending) (rest : List Pending) (s : PoolActorState)
    → ltb_ℤ s.current_load s.max_concurrency ≡ true
    → {b : _} → create_block_executor p.request.type ≡ some b
    → serve (p ∷ rest) s ≡ serve rest (start p (noted p rest s))
unfolding serve
serve-known p rest s h e = rw (h, e, serve)

pub serve-unknown :
    (p : Pending) (rest : List Pending) (s : PoolActorState)
    → ltb_ℤ s.current_load s.max_concurrency ≡ true
    → create_block_executor p.request.type ≡ none
    → serve (p ∷ rest) s ≡ serve rest (dropped p rest s)
unfolding serve
serve-unknown p rest s h e = rw (h, e, serve)

-- Induction along the pass.
pub serve_ind {ℓ} :
    (P : List Pending → PoolActorState → PoolActorState → Type ℓ)
    → ((s : PoolActorState) → P [] s (record s { pending_requests = [] }))
    → ((p : Pending) (rest : List Pending) (s : PoolActorState)
        → ltb_ℤ s.current_load s.max_concurrency ≡ false
        → P (p ∷ rest) s (record s { pending_requests = p ∷ rest }))
    → ((p : Pending) (rest : List Pending) (s t : PoolActorState) (b : Block)
        → ltb_ℤ s.current_load s.max_concurrency ≡ true
        → create_block_executor p.request.type ≡ some b
        → P rest (start p (noted p rest s)) t
        → P (p ∷ rest) s t)
    → ((p : Pending) (rest : List Pending) (s t : PoolActorState)
        → ltb_ℤ s.current_load s.max_concurrency ≡ true
        → create_block_executor p.request.type ≡ none
        → P rest (dropped p rest s) t
        → P (p ∷ rest) s t)
    → (q : List Pending) (s : PoolActorState) → P q s (serve q s)
unfolding serve
serve_ind P nil busy known unknown [] s = nil s
serve_ind P nil busy known unknown (p ∷ rest) s =
    let later = serve_ind P nil busy known unknown rest in
    elim (Bool-cases (ltb_ℤ s.current_load s.max_concurrency)) [
      | inr full ↦ subst (P (p ∷ rest) s) (sym (serve-busy p rest s full)) (busy p rest s full)
      | inl free ↦ elim (Option-cases (create_block_executor p.request.type)) [
        | inl e ↦
            subst (P (p ∷ rest) s) (sym (serve-unknown p rest s free e))
              (unknown p rest s _ free e (later (dropped p rest s)))
        | inr (b, e) ↦
            subst (P (p ∷ rest) s) (sym (serve-known p rest s free e))
              (known p rest s _ b free e (later (start p (noted p rest s))))
      ]
    ]

pub serve-length-le :
    (q : List Pending) (s : PoolActorState) → length (serve q s).pending_requests ≤ length q
serve-length-le =
    serve_ind (λ q s t. length t.pending_requests ≤ length q) (λ s. omega arith)
      (λ p rest s h. omega arith) (λ p rest s t b h e ih. omega arith)
      (λ p rest s t h e ih. omega arith)

-- A second pass over what the first left does nothing.
pub serve_again :
    (q : List Pending) (s : PoolActorState)
    → serve (serve q s).pending_requests (serve q s) ≡ serve q s
serve_again =
    serve_ind (λ q s t. serve t.pending_requests t ≡ t) (λ s. unfold serve in refl)
      (λ p rest s h. serve-busy p rest (record s { pending_requests = p ∷ rest }) h)
      (λ p rest s t b h e ih. ih) (λ p rest s t h e ih. ih)

abbrev with_queue : List Pending → PoolActorState → PoolActorState
with_queue q s = record s { pending_requests = q }

serve-with_queue : (q r : List Pending) (s : PoolActorState) → serve q (with_queue r s) ≡ serve q s
unfolding serve
serve-with_queue [] r s = refl
serve-with_queue (p ∷ rest) r s = ground (
  arith,
  serve-with_queue rest r (dropped p rest s),
  serve-with_queue rest r (start p (noted p rest s)),
)

-- A round of the source's loop, by its case.
module _ (n : ℕ) (p : Pending) (rest : List Pending) (s : PoolActorState) where
  round-busy :
      ltb_ℤ s.current_load s.max_concurrency ≡ false
      → process_pending_from (suc n) (with_queue (p ∷ rest) s) ≡ some (with_queue (p ∷ rest) s)
  unfolding process_pending_from
  round-busy h = rw h

  round-known :
      {b : Block}
      → ltb_ℤ s.current_load s.max_concurrency ≡ true
      → create_block_executor p.request.type ≡ some b
      → process_pending_from (suc n) (with_queue (p ∷ rest) s)
        ≡ process_pending_from n (with_queue rest (start p (noted p rest s)))
  unfolding process_pending_from
  round-known h e = rw (h, e, execute_step_with)

  round-unknown :
      ltb_ℤ s.current_load s.max_concurrency ≡ true
      → create_block_executor p.request.type ≡ none
      → process_pending_from (suc n) (with_queue (p ∷ rest) s)
        ≡ (process_pending_from n (with_queue rest (dropped p rest s)) >>= process_pending_from n)
  unfolding process_pending_from
  round-unknown h e = rw (h, e, execute_step_with, dec-inc)

drains :
    (n : ℕ) (q : List Pending) (s : PoolActorState)
    → length q < n
    → process_pending_from n (with_queue q s) ≡ some (serve q s)
drains zero q s h = absurd (omega arith)
drains (suc n) [] s h = unfold process_pending_from serve in refl
drains (suc n) (p ∷ rest) s h = elim (Bool-cases (ltb_ℤ s.current_load s.max_concurrency)) [
  | inr full ↦ round-busy n p rest s full ∙ ap some (sym (serve-busy p rest s full))
  | inl free ↦ elim (Option-cases (create_block_executor p.request.type)) [
    | inr (b, e) ↦
        round-known n p rest s free e
        ∙ drains n rest (start p (noted p rest s)) (omega arith)
        ∙ ap some (sym (serve-known p rest s free e))
    | inl e ↦
        round-unknown n p rest s free e
        ∙ ap (λ r. r >>= process_pending_from n) (drains n rest (dropped p rest s) (omega arith))
        ∙ drains n (serve rest (dropped p rest s)).pending_requests (serve rest (dropped p rest s))
            (omega (arith, serve-length-le rest (dropped p rest s)))
        ∙ ap some (serve_again rest (dropped p rest s))
        ∙ ap some (sym (serve-unknown p rest s free e))
  ]
]

-- The loop of `process_pending`, with the calls that `execute_step` makes back into it, ends and
-- does the work of one pass over the queue.
pub process_pending-serve :
    (s : PoolActorState) → process_pending s ≡ some (serve s.pending_requests s)
unfolding process_pending
process_pending-serve s =
    drains (suc (length s.pending_requests)) s.pending_requests s (omega arith)
