-- ===== src/Runtime/Counting.antt =====
-- Counting the threads of a pool by their phase.
use beamline_caf.Base.{
  ℕ, zero, suc, ◌+◌, ◌<◌, ◌≡◌, refl, List, [], ◌∷◌, map, some, length, arith, inl, inr,
  zero-or-positive,
}
use beamline_caf.Runtime.Threads.{
  Phase, checking, asleep, exited, running, copies, thread, put, woken, in_phase, is_checking,
  is_asleep, is_exited, is_running,
}

pub length-copies : (Task : Type 0) (n : ℕ) → length {A = Phase Task} (copies n) ≡ n
unfolding copies
length-copies Task zero = refl
length-copies Task (suc n) = omega (arith, length-copies Task n)

module _ {Task : Type 0} where
  -- One thread changes its phase.
  pub in_phase-put :
      (f : Phase Task → ℕ) (i : ℕ) (p q : Phase Task) (ps : List (Phase Task))
      → thread i ps ≡ some p
      → in_phase f (put i q ps) + f p ≡ in_phase f ps + f q
  unfolding thread put in_phase
  in_phase-put f i p q [] h = cc
  in_phase-put f zero p q (r ∷ ps) h = ground arith
  in_phase-put f (suc i) p q (r ∷ ps) h = omega (arith, in_phase-put f i p q ps h)

  pub length-put :
      (i : ℕ) (q : Phase Task) (ps : List (Phase Task)) → length (put i q ps) ≡ length ps
  unfolding put
  length-put i q [] = refl
  length-put zero q (p ∷ ps) = refl
  length-put (suc i) q (p ∷ ps) = omega (arith, length-put i q ps)

  -- A phase that new threads are not in.
  pub in_phase-copies : (f : Phase Task → ℕ) (n : ℕ) → f checking ≡ 0 → in_phase f (copies n) ≡ 0
  unfolding copies in_phase
  in_phase-copies f zero h = refl
  in_phase-copies f (suc n) h = omega (arith, in_phase-copies f n h)

  -- The broadcast moves every sleeper to the test.
  pub woken_counts :
      (ps : List (Phase Task))
      → (in_phase is_asleep (map woken ps) ≡ 0)
        × (in_phase is_checking (map woken ps) ≡ in_phase is_checking ps + in_phase is_asleep ps)
        × (in_phase is_running (map woken ps) ≡ in_phase is_running ps)
        × (in_phase is_exited (map woken ps) ≡ in_phase is_exited ps)
        × (length (map woken ps) ≡ length ps)
  unfolding in_phase woken
  woken_counts [] = (refl, refl, refl, refl, refl)
  woken_counts (checking ∷ ps) = ground (arith, woken_counts ps)
  woken_counts (asleep ∷ ps) = ground (arith, woken_counts ps)
  woken_counts (exited ∷ ps) = ground (arith, woken_counts ps)
  woken_counts (running t ∷ ps) = ground (arith, woken_counts ps)

  -- Every thread is in one of the four phases.
  pub phases_add_up :
      (ps : List (Phase Task))
      → in_phase is_checking ps
          + in_phase is_asleep ps
          + in_phase is_exited ps
          + in_phase is_running ps
        ≡ length ps
  unfolding in_phase
  phases_add_up [] = refl
  phases_add_up (checking ∷ ps) = omega (arith, phases_add_up ps)
  phases_add_up (asleep ∷ ps) = omega (arith, phases_add_up ps)
  phases_add_up (exited ∷ ps) = omega (arith, phases_add_up ps)
  phases_add_up (running t ∷ ps) = omega (arith, phases_add_up ps)

  -- A phase that is counted has a thread in it.
  pub thread-in_phase :
      (f : Phase Task → ℕ) (ps : List (Phase Task))
      → 0 < in_phase f ps
      → (i : ℕ) × (p : Phase Task) × (thread i ps ≡ some p) × (0 < f p)
  unfolding thread in_phase
  thread-in_phase f [] h = absurd (omega arith)
  thread-in_phase f (p ∷ ps) h = elim (zero-or-positive (f p)) [
    | inr lt ↦ (0, p, refl, lt)
    | inl e ↦ let (i, q, at, lt) = thread-in_phase f ps (omega arith) in (suc i, q, at, lt)
  ]

  -- The only phase that each of the counts takes in.
  pub counts_checking : (p : Phase Task) → 0 < is_checking p → p ≡ checking
  counts_checking checking h = refl
  counts_checking asleep h = absurd (omega arith)
  counts_checking exited h = absurd (omega arith)
  counts_checking (running t) h = absurd (omega arith)

  pub counts_asleep : (p : Phase Task) → 0 < is_asleep p → p ≡ asleep
  counts_asleep asleep h = refl
  counts_asleep checking h = absurd (omega arith)
  counts_asleep exited h = absurd (omega arith)
  counts_asleep (running t) h = absurd (omega arith)

  pub counts_running : (p : Phase Task) → 0 < is_running p → (t : Task) × (p ≡ running t)
  counts_running (running t) h = (t, refl)
  counts_running checking h = absurd (omega arith)
  counts_running asleep h = absurd (omega arith)
  counts_running exited h = absurd (omega arith)
