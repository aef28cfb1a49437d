-- ===== src/Blocks/Sql/Life.antt =====
-- A block from its making to its destruction.
use beamline_caf.Base.{
  ℕ, suc, ◌≡◌, refl, ap, sym, subst, ◌∙◌, Bool, true, false, List, [], ◌∷◌, All, Option, none, some,
  arith, if◌then◌else◌,
}
use mathlib.Core.Option.{none-ne-some}
use beamline_caf.Core.{value, BlockContext, StepRequest, ResultMetadata}
use beamline_caf.Blocks.{
  BlockState, Outcome, init, done, thrown, fail, record_success, record_error,
  validate_required_inputs, get_input_or_default,
}
use beamline_caf.Blocks.Sql.{
  Database, Answer, query_result, Initialised, opened_own, new_sql_block, execute_sql, init_sql,
  destroy_sql,
}
use beamline_caf.Blocks.Sql.Handles.{CountsOpen, execute_sql-own}

-- The queries of a list, one after the other, with the context of `init`.
unfoldable pub execute_all :
    (d : Database) → Option ℕ → List StepRequest → BlockState → d.World → BlockState × d.World
execute_all d own [] s w = (s, w)
execute_all d own (req ∷ reqs) s w =
    let (result, s', w') = execute_sql d own req s.context s w in execute_all d own reqs s' w'

-- The queries and the destructor, after `init`.
unfoldable pub live_on : (d : Database) → List StepRequest → Initialised d → d.World
unfolding execute_all
live_on d reqs (answer, s, own, w) = destroy_sql d own (execute_all d own reqs s w).1

unfoldable pub life : (d : Database) → BlockContext → List StepRequest → d.World → d.World
unfolding live_on
life d ctx reqs w = live_on d reqs (init_sql d ctx new_sql_block none w)

-- A query that names no connection, or the one in memory.
abbrev pub IsLocal : StepRequest → Type 0
IsLocal req =
    (validate_required_inputs req ("query" ∷ []) ≡ true)
    × (get_input_or_default req "connection" ":memory:" ≡ ":memory:")

query_result-context :
    (d : Database) (metadata : ResultMetadata) (start_time : ℕ) (s : BlockState) (x : Answer d)
    → (query_result d metadata start_time s x).1.context ≡ s.context
unfolding query_result fail record_success record_error
query_result-context d metadata start_time s (done (outputs, destructor), w) = refl
query_result-context d metadata start_time s (thrown what, w) = refl

execute_sql-context :
    (d : Database) (own : Option ℕ) (req : StepRequest) (s : BlockState) (w : d.World)
    → validate_required_inputs req ("query" ∷ []) ≡ true
    → (execute_sql d own req s.context s w).1.context ≡ s.context
unfolding execute_sql
execute_sql-context d own req s w valid = rw valid (query_result-context d _ _ s _)

module _ (d : Database) (k : CountsOpen d) where
  open k use {open_count, statements_of}

  -- `init` in the sandbox opens one connection, and holds it whatever `sqlite3_open` says.
  HasOwn : ℕ → BlockContext → Initialised d → Type 0
  HasOwn n ctx (answer, s, own, w) =
      (s.context ≡ ctx)
      × ((db : ℕ) × (own ≡ some db) × (statements_of db w ≡ 0))
      × (open_count w ≡ suc n)

  opened_own-HasOwn :
      (n : ℕ) (s : BlockState) (x : Bool × ℕ × d.World)
      → (open_count x.2 ≡ suc n) × (statements_of x.1 x.2 ≡ 0)
      → HasOwn n s.context (opened_own d s x)
  unfolding HasOwn
  opened_own-HasOwn n s (true, db, w) (h, none_yet) = (refl, (db, refl, none_yet), h)
  opened_own-HasOwn n s (false, db, w) (h, none_yet) = (refl, (db, refl, none_yet), h)

  init_sql-HasOwn :
      (ctx : BlockContext) (s : BlockState) (own : Option ℕ) (w : d.World)
      → ctx.sandbox ≡ true
      → HasOwn (open_count w) ctx (init_sql d ctx s own w)
  unfolding init_sql init
  init_sql-HasOwn ctx s own w sandbox =
      subst (HasOwn (open_count w) ctx) (sym (ap tested sandbox)) (
        opened_own-HasOwn (open_count w) (init ctx s) (d.sqlite3_open ":memory:" w)
          (k.of_open ":memory:" w))
    where
      tested : Bool → Initialised d
      tested b =
          if b
          then opened_own d (init ctx s) (d.sqlite3_open ":memory:" w)
          else (value tt, init ctx s, own, w)

  execute_all-open_count :
      (db : ℕ) (reqs : List StepRequest) (s : BlockState) (w : d.World)
      → s.context.sandbox ≡ true
      → All IsLocal reqs
      → statements_of db w ≡ 0
      → (open_count (execute_all d (some db) reqs s w).1 ≡ open_count w)
        × (statements_of db (execute_all d (some db) reqs s w).1 ≡ 0)
  unfolding execute_all
  execute_all-open_count db [] s w sandbox local free = (refl, free)
  execute_all-open_count db (req ∷ reqs) s w sandbox (here, there) free =
      let x : Outcome d.World = execute_sql d (some db) req s.context s w in
      let (count, freed) =
        execute_sql-own d k (some db) req s.context s w here.0 0 sandbox here.1 free in
      let (counts, freed_all) =
        execute_all-open_count db reqs x.1 x.2
          (ap (λ c. c.sandbox) (execute_sql-context d (some db) req s w here.0) ∙ sandbox) there
          freed in
      (counts ∙ count, freed_all)

  live_on-open_count :
      (n : ℕ) (ctx : BlockContext) (reqs : List StepRequest) (x : Initialised d)
      → ctx.sandbox ≡ true
      → All IsLocal reqs
      → HasOwn n ctx x
      → open_count (live_on d reqs x) ≡ n
  unfolding HasOwn live_on destroy_sql
  live_on-open_count n ctx reqs (answer, s, none, w) sandbox local (same, (db, own, _), count) =
      absurd (none-ne-some db own)
  live_on-open_count n ctx reqs (answer, s, some db, w) sandbox local
        (same, (c, own, free), count) =
      let one : c ≡ db = cc in
      let (counts, freed) =
        execute_all-open_count db reqs s w (ap (λ a. a.sandbox) same ∙ sandbox) local
          (subst (λ e. statements_of e w ≡ 0) one free) in
      omega (arith, k.of_close db (execute_all d (some db) reqs s w).1 freed, counts, count)

  -- A sandbox block whose queries all run on its own connection leaves nothing open behind it,
  -- whether or not its connection could be opened, and however the queries end.
  pub life-open_count :
      (ctx : BlockContext) (reqs : List StepRequest) (w : d.World)
      → ctx.sandbox ≡ true
      → All IsLocal reqs
      → open_count (life d ctx reqs w) ≡ open_count w
  unfolding life
  life-open_count ctx reqs w sandbox local =
      live_on-open_count (open_count w) ctx reqs (init_sql d ctx new_sql_block none w) sandbox local
        (init_sql-HasOwn ctx new_sql_block none w sandbox)
