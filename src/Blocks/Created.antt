-- ===== src/Blocks/Created.antt =====
-- processor/src/worker_actor.cpp, `create_block_executor`, with the executors of the blocks that it
-- makes: what a whole step leaves in a block's counters.
use beamline_caf.Base.{ℕ, suc, ◌≤◌, ◌≡◌, ◌≢◌, refl, sym, ap, ◌∙◌, ℤ, pos, inc, some, inl, inr, ◌⊎◌}
use beamline_caf.Core.{
  BlockContext, StepRequest, StepResult, ok, error, empty_context, empty_metadata,
  metadata_from_context,
}
use beamline_caf.Flags.{Env}
use beamline_caf.Executor.{Host, finish, again, judge, execute_single_attempt, execute_with_retry}
use beamline_caf.Executor.Rule.{IsKept, execute_with_retry-Returns}
use beamline_caf.Blocks.{BlockState, new_block}
use beamline_caf.Blocks.Counts.{IsCounted}
use beamline_caf.Blocks.Executed.{Impl, host_of, IsAnswerAt, finish-IsAnswerAt, again-IsAnswerAt}
use beamline_caf.Blocks.Fs.{FileSystem, new_fs_block, new_fs_get_block, execute_put, execute_get}
use beamline_caf.Blocks.Fs.Counts.{execute_put-IsCounted, execute_get-IsCounted}
use beamline_caf.Blocks.Http.{Network, new_http_block, execute_http}
use beamline_caf.Blocks.Http.Answers.{execute_http-IsCounted}
use beamline_caf.Pool.{Block, http_request, fs_blob_put, fs_blob_get}

-- The machine that the blocks run on.
pub record Machine : Type 1 where
  pub files : FileSystem
  pub network : Network
  pub sleep_beside_files : ℕ → files.World → files.World
  pub sleep_beside_network : ℕ → network.World → network.World

-- A block as it is created; nobody calls its `init`.
abbrev pub created : Block → BlockState
created http_request = new_http_block
created fs_blob_put = new_fs_block
created fs_blob_get = new_fs_get_block

module _ (machine : Machine) (env : Env) where
  abbrev pub WorldOf : Block → Type 0
  WorldOf http_request = machine.network.World
  WorldOf fs_blob_put = machine.files.World
  WorldOf fs_blob_get = machine.files.World

  abbrev pub now_of : (b : Block) → WorldOf b → ℕ × WorldOf b
  now_of http_request = machine.network.now
  now_of fs_blob_put = machine.files.now
  now_of fs_blob_get = machine.files.now

  abbrev pub sleep_of : (b : Block) → ℕ → WorldOf b → WorldOf b
  sleep_of http_request = machine.sleep_beside_network
  sleep_of fs_blob_put = machine.sleep_beside_files
  sleep_of fs_blob_get = machine.sleep_beside_files

  abbrev pub impl_of : (b : Block) → Impl (WorldOf b)
  impl_of http_request = execute_http machine.network env
  impl_of fs_blob_put = execute_put machine.files env
  impl_of fs_blob_get = execute_get machine.files env

  -- The executor of a block.
  abbrev pub executor_of : Block → Host
  executor_of b = host_of (WorldOf b) (now_of b) (sleep_of b) (impl_of b)

  impl_of-IsCounted :
      (b : Block) (req : StepRequest) (ctx : BlockContext) (s : BlockState) (w : WorldOf b)
      → IsCounted ctx s (impl_of b req ctx s w).0 (impl_of b req ctx s w).1
  impl_of-IsCounted http_request = execute_http-IsCounted machine.network env
  impl_of-IsCounted fs_blob_put = execute_put-IsCounted machine.files env
  impl_of-IsCounted fs_blob_get = execute_get-IsCounted machine.files env

-- The block has no context, and has counted this many successes and errors.
pub record HasCounted (good bad : ℕ) (s : BlockState) : Type 0 where
  pub no_context : s.context ≡ empty_context
  pub successes : s.metrics.success_count ≡ pos good
  pub errors : s.metrics.error_count ≡ pos bad

created-HasCounted : (b : Block) → HasCounted 0 0 (created b)
unfolding new_http_block new_fs_block new_fs_get_block new_block
created-HasCounted http_request = record { no_context = refl; successes = refl; errors = refl }
created-HasCounted fs_blob_put = record { no_context = refl; successes = refl; errors = refl }
created-HasCounted fs_blob_get = record { no_context = refl; successes = refl; errors = refl }

not_ok : ¬ (error ≡ ok)
not_ok e = cc

no_ids : metadata_from_context empty_context ≡ empty_metadata
unfolding metadata_from_context
no_ids = refl

-- A success was counted after an error for each retry; else there are errors only, one for each retry
-- and perhaps one more.
abbrev pub Tallies : StepResult → BlockState → Type 0
Tallies r s =
    (n : ℕ) × (r.retries_used ≡ pos n)
    × ((r.status ≡ ok × HasCounted 1 n s)
        ⊎ (r.status ≢ ok × (HasCounted 0 n s ⊎ HasCounted 0 (suc n) s)))

module _ (machine : Machine) (env : Env) (b : Block) (req : StepRequest) where
  abbrev Places : Type 0
  Places = BlockState × WorldOf machine env b

  abbrev NoIds : StepResult → Type 0
  NoIds r = r.metadata ≡ empty_metadata

  -- A round in which the block has counted `n` errors.
  counted_round :
      (n : ℕ) (w : Places) (r : StepResult)
      → HasCounted 0 n w.0
      → IsAnswerAt
          (now_of machine env b)
          (sleep_of machine env b)
          (impl_of machine env b)
          env
          req
          n
          r
          w
      → NoIds r
        × (r.retries_used ≡ pos n)
        × ((r.status ≡ ok
              × HasCounted 1 n (execute_single_attempt (executor_of machine env b) env req w).1.0)
            ⊎ (r.status ≢ ok
                × HasCounted 0
                    (suc n)
                    (execute_single_attempt (executor_of machine env b) env req w).1.0))
  unfolding execute_single_attempt
  counted_round n w r v own =
      let (ids, kept, counted) =
        impl_of-IsCounted machine env b req w.0.context w.0 (now_of machine env b w.1).1 in
      let status = ap (λ a. a.status) own in
      (
        ap (λ a. a.metadata) own ∙ ids ∙ ap metadata_from_context v.no_context ∙ no_ids,
        ap (λ a. a.retries_used) own,
        elim counted [
          | inl (good, _, more, same) ↦ inl (
            status ∙ good,
            record {
              no_context = kept ∙ v.no_context;
              successes = more ∙ ap inc v.successes;
              errors = same ∙ v.errors;
            },
          )
          | inr (bad, _, same, more) ↦ inr (
            (λ good. not_ok (sym (status ∙ bad) ∙ good)),
            record {
              no_context = kept ∙ v.no_context;
              successes = same ∙ v.successes;
              errors = more ∙ ap inc v.errors;
            },
          )
        ],
      )

  abbrev Before : ℕ → StepResult → ℤ → Places → Type 0
  Before n r http w = NoIds r × HasCounted 0 n w.0

  abbrev After : ℕ → StepResult → ℤ → Places → Type 0
  After n r http w = NoIds r × (r.retries_used ≡ pos n) × (r.status ≢ ok) × HasCounted 0 (suc n) w.0

  created-IsKept :
      IsKept (executor_of machine env b) env req Before After (λ r w. NoIds r × Tallies r w.0)
  created-IsKept = record {
    clock = λ n r http w p. p;
    clock_after = λ n r http w q. q;
    cut_before = λ n r http w p. (p.0, (n, refl, inr ((λ e. cc), inl p.1)));
    cut_after = λ n r http w q. (q.0, (n, refl, inr ((λ e. cc), inr q.3)));
    finished = λ n r http w r' p e. finished n r http w r' p e;
    failed = λ n r http w r' http' p e. failed n r http w r' http' p e;
    slept = λ n d r http w le q. (q.0, q.3);
    spent = λ n r http w e q. (q.0, (n, q.1, inr (q.2, inr q.3)));
  }
    where
      finished :
          (n : ℕ) (r : StepResult) (http : ℤ) (w : Places) (r' : StepResult)
          → Before n r http w
          → judge env req n r http (execute_single_attempt (executor_of machine env b) env req w).0
            ≡ finish r'
          → NoIds r' × Tallies r' (execute_single_attempt (executor_of machine env b) env req w).1.0
      finished n r http w r' p e =
          let (ids, same, told) = counted_round n w r' p.1 (
            finish-IsAnswerAt (now_of machine env b) (sleep_of machine env b)
              (impl_of machine env b) env req n r http w r' e) in
          (
            ids,
            (
              n,
              same,
              elim told [ inl good ↦ inl good | inr (bad, counted) ↦ inr (bad, inr counted) ],
            ),
          )

      failed :
          (n : ℕ) (r : StepResult) (http : ℤ) (w : Places) (r' : StepResult) (http' : ℤ)
          → Before n r http w
          → judge env req n r http (execute_single_attempt (executor_of machine env b) env req w).0
            ≡ again r' http'
          → After n r' http' (execute_single_attempt (executor_of machine env b) env req w).1
      failed n r http w r' http' p e =
          let (own, bad) =
            again-IsAnswerAt (now_of machine env b) (sleep_of machine env b) (impl_of machine env b)
              env req n r http w r' http' e in
          let (ids, same, told) = counted_round n w r' p.1 own in
          elim told [
            | inl (good, _) ↦ absurd (bad good)
            | inr (_, counted) ↦ (ids, same, bad, counted)
          ]

  -- Whichever block a pool has created for a step, with 0 to 56 retries, and whatever the machine does:
  -- the step ends; its result carries none of the correlation ids; and the block has counted either one
  -- success, which the result is, and an error for each retry, or, for a result that is no success, no
  -- success and an error for each retry or one more.
  pub execute_with_retry-Tallies :
      (m : ℕ) (w : WorldOf machine env b)
      → req.retry_count ≡ pos m
      → m ≤ 56
      → (r : StepResult) × (v : Places) × (execute_with_retry
            (executor_of machine env b)
            env
            req
            (created b, w)
          ≡ some (r, v))
        × (r.metadata ≡ empty_metadata)
        × Tallies r v.0
  execute_with_retry-Tallies m w count few =
      let (r, v, ran, (ids, told)) =
        execute_with_retry-Returns (executor_of machine env b) env req _ _ _ created-IsKept m
          (created b, w) count few (refl, created-HasCounted b) in
      (r, v, ran, ids, told)
