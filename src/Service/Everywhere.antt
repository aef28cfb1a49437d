-- ===== src/Service/Everywhere.antt =====
-- A pool with its executors: predicates on the requests that come.
use beamline_caf.Base.{zero, suc, subst, List, [], ◌∷◌, ◌++◌, All, All-append, ℕ}
use beamline_caf.Core.{StepRequest}
use beamline_caf.Executor.{Host}
use beamline_caf.Pool.{PoolMessage}
use beamline_caf.Pool.Cases.{of_result}
use beamline_caf.Pool.Everywhere.{IsAll, Brings, receive-IsAll}
use beamline_caf.Service.{Actors, done_messages, Inside, handle, run}

All-split {ℓ κ} :
    {A : Type ℓ} (P : A → Type κ) (xs ys : List A) → All P (xs ++ ys) → All P xs × All P ys
All-split P [] ys h = (tt, h)
All-split P (x ∷ xs) ys h = let (hx, hy) = All-split P xs ys h.1 in ((h.0, hx), hy)

module _ (Q : StepRequest → Type 0) where
  pub record HasAll (s : Actors) : Type 0 where
    pub in_mailbox : All (Brings Q) s.mailbox
    pub in_pool : IsAll Q s.pool
    pub in_executors : All Q s.executors

  Brings-done_messages : (n : ℕ) → All (Brings Q) (done_messages n)
  unfolding done_messages
  Brings-done_messages zero = tt
  Brings-done_messages (suc n) = (tt, Brings-done_messages n)

  pub Inside-HasAll : {h : Host} {s t : Actors} → Inside h s t → HasAll s → HasAll t
  Inside-HasAll {h} {s} (handle env m rest p new e got more) few =
      let queue : All (Brings Q) (m ∷ rest) = subst (All (Brings Q)) e few.in_mailbox in
      let pool : IsAll Q p =
        of_result {P = IsAll Q} (receive-IsAll Q env m s.pool queue.0 few.in_pool) got in
      record {
        in_mailbox = queue.1;
        in_pool = pool;
        in_executors =
            All-append Q s.executors new few.in_executors
              (All-split Q s.pool.spawned new (subst (All Q) more pool.begun)).1;
      }
  Inside-HasAll {h} {s} (run env before after r w u x e ran) few =
      let (first, last) = All-split Q before (r ∷ after) (subst (All Q) e few.in_executors) in
      record {
        in_mailbox =
            All-append (Brings Q) s.mailbox (done_messages x.done_sent) few.in_mailbox
              (Brings-done_messages x.done_sent);
        in_pool = few.in_pool;
        in_executors = All-append Q before after first last.1;
      }

  pub HasAll-append :
      (s : Actors) (ms : List PoolMessage)
      → HasAll s
      → All (Brings Q) ms
      → HasAll (record s { mailbox = s.mailbox ++ ms })
  HasAll-append s ms v h = record {
    in_mailbox = All-append (Brings Q) s.mailbox ms v.in_mailbox h;
    in_pool = v.in_pool;
    in_executors = v.in_executors;
  }
