-- ===== src/Blocks/Sql/Handles.antt =====
-- Which connections and statements a query leaves open.
use beamline_caf.Base.{
  ◌≢◌, sym, subst, ℕ, suc, ◌+◌, ◌-◌, ◌≡◌, refl, ap, ◌∙◌, ◌⊎◌, inl, inr, Bool, true, false, not,
  ◌||◌, List, [], ◌∷◌, String, ◌=ˢ◌, Option, none, some, arith, Bool-cases, if◌then◌else◌,
}
use beamline_caf.Core.{BlockContext, ResultMetadata, StepRequest, metadata_from_context}
use beamline_caf.Blocks.{
  BlockState, fail, validate_required_inputs, get_input_or_default, done, thrown,
}
use beamline_caf.Blocks.Sql.{
  Database, Column, release, guard, Answer, finished, prepared, connected, run_query, query_result,
  execute_sql,
}

-- The statement that a call of `sqlite3_prepare` made.
abbrev pub made : Bool → Option ℕ → ℕ
made true (some stmt) = 1
made true none = 0
made false stmt = 0

-- A database whose open connections and statements can be counted together, and the statements of each
-- connection that are not finalized. A connection is made also when `sqlite3_open` reports an error, and
-- no statement is made when `sqlite3_prepare` does. `sqlite3_close` closes a connection only when it has
-- no statements; else it returns SQLITE_BUSY and leaves it open.
pub record CountsOpen (d : Database) : Type 0 where
  pub open_count : d.World → ℕ
  pub statements_of : ℕ → d.World → ℕ
  pub connection_of : ℕ → d.World → Option ℕ
  pub of_now : (w : d.World) → open_count (d.now w).1 ≡ open_count w
  pub of_now_each :
      (w : d.World) (c : ℕ)
      → (statements_of c (d.now w).1 ≡ statements_of c w)
        × (connection_of c (d.now w).1 ≡ connection_of c w)
  pub of_open :
      (name : String) (w : d.World)
      → (open_count (d.sqlite3_open name w).2 ≡ suc (open_count w))
        × (statements_of (d.sqlite3_open name w).1 (d.sqlite3_open name w).2 ≡ 0)
  pub of_close :
      (db : ℕ) (w : d.World)
      → statements_of db w ≡ 0
      → open_count (d.sqlite3_close db w) ≡ open_count w - 1
  pub of_busy :
      (db : ℕ) (w : d.World)
      → statements_of db w ≢ 0
      → open_count (d.sqlite3_close db w) ≡ open_count w
  pub of_prepare :
      (db : Option ℕ) (query : String) (w : d.World)
      → open_count (d.sqlite3_prepare db query w).2
        ≡ made (d.sqlite3_prepare db query w).0 (d.sqlite3_prepare db query w).1 + open_count w
  pub of_prepare_on :
      (db : ℕ) (query : String) (w : d.World)
      → (statements_of db (d.sqlite3_prepare (some db) query w).2
          ≡ made (d.sqlite3_prepare (some db) query w).0 (d.sqlite3_prepare (some db) query w).1
            + statements_of db w)
        × ((stmt : ℕ)
            → (d.sqlite3_prepare (some db) query w).1 ≡ some stmt
            → connection_of stmt (d.sqlite3_prepare (some db) query w).2 ≡ some db)
  pub of_step : (stmt : Option ℕ) (w : d.World) → open_count (d.step_all stmt w).2 ≡ open_count w
  pub of_step_each :
      (stmt : Option ℕ) (w : d.World) (c : ℕ)
      → (statements_of c (d.step_all stmt w).2 ≡ statements_of c w)
        × (connection_of c (d.step_all stmt w).2 ≡ connection_of c w)
  pub of_finalize :
      (stmt : ℕ) (w : d.World) → open_count (d.sqlite3_finalize stmt w) ≡ open_count w - 1
  pub of_finalize_on :
      (stmt db : ℕ) (w : d.World)
      → connection_of stmt w ≡ some db
      → statements_of db (d.sqlite3_finalize stmt w) ≡ statements_of db w - 1

module _ (d : Database) (k : CountsOpen d) where
  open d use {World, now, sqlite3_open, sqlite3_close, sqlite3_prepare, step_all, sqlite3_finalize}
  open k use {open_count, statements_of, connection_of}

  abbrev held : Bool → ℕ
  held local_db = if local_db then 1 else 0

  -- The connection, if there is one, has so many statements.
  abbrev pub HasStatements : Option ℕ → ℕ → World → Type 0
  HasStatements none m w = Unit
  HasStatements (some c) m w = statements_of c w ≡ m

  abbrev IsOn : Option ℕ → Option ℕ → World → Type 0
  IsOn (some stmt) (some c) w = connection_of stmt w ≡ some c
  IsOn _ _ w = Unit

  -- Nothing is counted differently.
  record IsSame (v w : World) : Type 0 where
    count : open_count v ≡ open_count w
    statements : (c : ℕ) → statements_of c v ≡ statements_of c w
    connections : (stmt : ℕ) → connection_of stmt v ≡ connection_of stmt w

  now-IsSame : (w : World) → IsSame (now w).1 w
  now-IsSame w = record {
    count = k.of_now w;
    statements = λ c. (k.of_now_each w c).0;
    connections = λ stmt. (k.of_now_each w stmt).1;
  }

  step-IsSame : (stmt : Option ℕ) (w : World) → IsSame (step_all stmt w).2 w
  step-IsSame stmt w = record {
    count = k.of_step stmt w;
    statements = λ c. (k.of_step_each stmt w c).0;
    connections = λ t. (k.of_step_each stmt w t).1;
  }

  -- A statement is open on the connection; beside it, and beside the connection if it is the call's own,
  -- `n` connections and statements are open and the connection has `m` statements.
  record IsBusy (db stmt : Option ℕ) (local_db : Bool) (n m : ℕ) (w : World) : Type 0 where
    count : open_count w ≡ made true stmt + (held local_db + n)
    statements : HasStatements db (made true stmt + m) w
    on_connection : IsOn stmt db w

  IsSame-IsBusy :
      (db stmt : Option ℕ) (local_db : Bool) (n m : ℕ) {v w : World}
      → IsSame v w
      → IsBusy db stmt local_db n m w
      → IsBusy db stmt local_db n m v
  IsSame-IsBusy none none local_db n m same b = record {
    count = same.count ∙ b.count;
    statements = tt;
    on_connection = tt;
  }
  IsSame-IsBusy none (some stmt) local_db n m same b = record {
    count = same.count ∙ b.count;
    statements = tt;
    on_connection = tt;
  }
  IsSame-IsBusy (some c) none local_db n m same b = record {
    count = same.count ∙ b.count;
    statements = same.statements c ∙ b.statements;
    on_connection = tt;
  }
  IsSame-IsBusy (some c) (some stmt) local_db n m same b = record {
    count = same.count ∙ b.count;
    statements = same.statements c ∙ b.statements;
    on_connection = same.connections stmt ∙ b.on_connection;
  }

  -- The call has given back what it took.
  record IsFreed (db : Option ℕ) (local_db : Bool) (n m : ℕ) (w : World) : Type 0 where
    count : open_count w ≡ n
    statements : local_db ≡ false → HasStatements db m w

  IsSame-IsFreed :
      (db : Option ℕ) (local_db : Bool) (n m : ℕ) {v w : World}
      → IsSame v w
      → IsFreed db local_db n m w
      → IsFreed db local_db n m v
  IsSame-IsFreed none local_db n m same f = record {
    count = same.count ∙ f.count;
    statements = λ _. tt;
  }
  IsSame-IsFreed (some c) local_db n m same f = record {
    count = same.count ∙ f.count;
    statements = λ e. same.statements c ∙ f.statements e;
  }

  -- A connection of the call's own exists and has no other statements.
  abbrev IsOwn : Option ℕ → Bool → ℕ → Type 0
  IsOwn db local_db m = (local_db ≡ false) ⊎ (((c : ℕ) × (db ≡ some c)) × (m ≡ 0))

  release-IsFreed :
      (db : Option ℕ) (local_db : Bool) (n m : ℕ) (w : World)
      → IsOwn db local_db m
      → open_count w ≡ held local_db + n
      → HasStatements db m w
      → IsFreed db local_db n m (release d local_db db w)
  release-IsFreed none false n m w o h s = record { count = omega (arith, h); statements = λ _. tt }
  release-IsFreed none true n m w (inl e) h s = cc
  release-IsFreed none true n m w (inr ((c, e), _)) h s = cc
  release-IsFreed (some c) false n m w o h s = record {
    count = omega (arith, h);
    statements = λ _. s;
  }
  release-IsFreed (some c) true n m w (inl e) h s = cc
  release-IsFreed (some c) true n m w (inr (_, e)) h s = record {
    count = omega (arith, h, k.of_close c w (s ∙ e));
    statements = λ t. cc;
  }

  guard-IsFreed :
      (stmt db : Option ℕ) (local_db : Bool) (n m : ℕ) (w : World)
      → IsOwn db local_db m
      → IsBusy db stmt local_db n m w
      → IsFreed db local_db n m (guard d stmt local_db db w)
  guard-IsFreed none none local_db n m w o b =
      release-IsFreed none local_db n m w o (omega (arith, b.count)) tt
  guard-IsFreed none (some c) local_db n m w o b =
      release-IsFreed (some c) local_db n m w o (omega (arith, b.count))
        (omega (arith, b.statements))
  guard-IsFreed (some stmt) none local_db n m w o b =
      release-IsFreed none local_db n m (sqlite3_finalize stmt w) o
        (omega (arith, b.count, k.of_finalize stmt w)) tt
  guard-IsFreed (some stmt) (some c) local_db n m w o b =
      release-IsFreed (some c) local_db n m (sqlite3_finalize stmt w) o
        (omega (arith, b.count, k.of_finalize stmt w))
        (omega (arith, b.statements, k.of_finalize_on stmt c w b.on_connection))

  -- After the answer and its destructor.
  abbrev Settles : Option ℕ → Bool → ℕ → ℕ → Answer d → Type 0
  Settles db local_db n m (done (outputs, destructor), w) =
      (v : World) → IsSame v w → IsFreed db local_db n m (destructor v)
  Settles db local_db n m (thrown what, w) = IsFreed db local_db n m w

  finished-Settles :
      (db stmt : Option ℕ) (local_db : Bool) (n m : ℕ) (x : List (List Column) × Bool × World)
      → IsOwn db local_db m
      → IsBusy db stmt local_db n m x.2
      → Settles db local_db n m (finished d db local_db stmt x)
  finished-Settles db stmt local_db n m (rows, true, w) o b =
      λ v same. guard-IsFreed stmt db local_db n m v o (IsSame-IsBusy db stmt local_db n m same b)
  finished-Settles db stmt local_db n m (rows, false, w) o b =
      guard-IsFreed stmt db local_db n m w o b

  -- What a call of `sqlite3_prepare` leaves.
  record IsPrepared (db : Option ℕ) (local_db : Bool) (n m : ℕ) (x : Bool × Option ℕ × World)
      : Type 0 where
    count : open_count x.2 ≡ made x.0 x.1 + (held local_db + n)
    statements : HasStatements db (made x.0 x.1 + m) x.2
    on_connection : IsOn x.1 db x.2

  prepared-Settles :
      (db : Option ℕ) (local_db : Bool) (n m : ℕ) (x : Bool × Option ℕ × World)
      → IsOwn db local_db m
      → IsPrepared db local_db n m x
      → Settles db local_db n m (prepared d db local_db x)
  prepared-Settles none local_db n m (false, stmt, w) o p =
      release-IsFreed none local_db n m w o (omega (arith, p.count)) tt
  prepared-Settles (some c) local_db n m (false, stmt, w) o p =
      release-IsFreed (some c) local_db n m w o (omega (arith, p.count))
        (omega (arith, p.statements))
  prepared-Settles db local_db n m (true, stmt, w) o p =
      finished-Settles db stmt local_db n m (step_all stmt w) o (
        IsSame-IsBusy db stmt local_db n m (step-IsSame stmt w)
          (record { count = p.count; statements = p.statements; on_connection = p.on_connection }))

  IsOn-connection_some :
      (o : Option ℕ) (c : ℕ) (w : World)
      → ((stmt : ℕ) → o ≡ some stmt → connection_of stmt w ≡ some c)
      → IsOn o (some c) w
  IsOn-connection_some none c w h = tt
  IsOn-connection_some (some stmt) c w h = h stmt refl

  sqlite3_prepare-IsPrepared :
      (db : Option ℕ) (local_db : Bool) (query : String) (n m : ℕ) (w : World)
      → open_count w ≡ held local_db + n
      → HasStatements db m w
      → IsPrepared db local_db n m (sqlite3_prepare db query w)
  sqlite3_prepare-IsPrepared none local_db query n m w h s = record {
    count = omega (arith, h, k.of_prepare none query w);
    statements = tt;
    on_connection =
        null_connection (sqlite3_prepare none query w).1 (sqlite3_prepare none query w).2;
  }
    where
      null_connection : (o : Option ℕ) (w : World) → IsOn o none w
      null_connection none w = tt
      null_connection (some stmt) w = tt
  sqlite3_prepare-IsPrepared (some c) local_db query n m w h s = record {
    count = omega (arith, h, k.of_prepare (some c) query w);
    statements = omega (arith, s, (k.of_prepare_on c query w).0);
    on_connection = IsOn-connection_some _ c _ (k.of_prepare_on c query w).1;
  }

  -- The connections that stay open: the one whose opening failed.
  abbrev pub leaked : Bool → String → World → ℕ
  leaked sandbox name w =
      if not sandbox || not (name =ˢ ":memory:")
      then if (sqlite3_open name w).0 then 0 else 1
      else 0

  connected-Settles :
      (query name : String) (n : ℕ) (x : Bool × ℕ × World)
      → (open_count x.2 ≡ suc n) × (statements_of x.1 x.2 ≡ 0)
      → Settles (some x.1) true ((if x.0 then 0 else 1) + n) 0 (connected d query name x)
  connected-Settles query name n (true, c, w) (h, s) =
      prepared-Settles (some c) true (0 + n) 0 (sqlite3_prepare (some c) query w)
        (inr ((c, refl), refl))
        (sqlite3_prepare-IsPrepared (some c) true query (0 + n) 0 w (omega (arith, h)) s)
  connected-Settles query name n (false, c, w) (h, s) = record {
    count = omega (arith, h);
    statements = λ e. cc;
  }

  -- A query on another connection than the block's.
  run_query-opened :
      (own : Option ℕ) (sandbox : Bool) (query name : String) (w : World)
      → (not sandbox || not (name =ˢ ":memory:")) ≡ true
      → (c : ℕ) × Settles
          (some c)
          true
          (leaked sandbox name w + open_count w)
          0
          (run_query d own sandbox query name w)
  unfolding run_query
  run_query-opened own sandbox query name w e = (
    (sqlite3_open name w).1,
    rw e (connected-Settles query name (open_count w) (sqlite3_open name w) (k.of_open name w)),
  )

  -- A query on the block's connection.
  run_query-own :
      (own : Option ℕ) (sandbox : Bool) (query name : String) (m : ℕ) (w : World)
      → (not sandbox || not (name =ˢ ":memory:")) ≡ false
      → HasStatements own m w
      → Settles own false (open_count w) m (run_query d own sandbox query name w)
  unfolding run_query
  run_query-own own sandbox query name m w e s = rw e (
      prepared-Settles own false (open_count w) m (sqlite3_prepare own query w) (inl refl)
        (sqlite3_prepare-IsPrepared own false query (open_count w) m w (omega arith) s))

  query_result-IsFreed :
      (metadata : ResultMetadata) (start_time : ℕ) (s : BlockState) (db : Option ℕ)
      (local_db : Bool) (n m : ℕ) (x : Answer d)
      → Settles db local_db n m x
      → IsFreed db local_db n m (query_result d metadata start_time s x).2
  unfolding query_result fail
  query_result-IsFreed metadata start_time s db local_db n m (done (outputs, destructor), w) h =
      h (now w).1 (now-IsSame w)
  query_result-IsFreed metadata start_time s db local_db n m (thrown what, w) h =
      IsSame-IsFreed db local_db n m (now-IsSame w) h

  module _ (own : Option ℕ) (req : StepRequest) (ctx : BlockContext) (s : BlockState) (w : World)
      (valid : validate_required_inputs req ("query" ∷ []) ≡ true) where
    abbrev name : String
    name = get_input_or_default req "connection" ":memory:"

    ran :
        execute_sql d own req ctx s w
        ≡ query_result d
            (metadata_from_context ctx)
            (now w).0
            s
            (run_query d own ctx.sandbox (get_input_or_default req "query" "") name (now w).1)
    ran = unfold execute_sql in rw valid refl

    IsFreed-ran :
        {db : Option ℕ} {local_db : Bool} {n m : ℕ}
        → Settles db local_db n m
            (run_query d own ctx.sandbox (get_input_or_default req "query" "") name (now w).1)
        → IsFreed db local_db n m (execute_sql d own req ctx s w).2
    IsFreed-ran {db} {local_db} {n} {m} h =
        subst (λ x. IsFreed db local_db n m x.2) (sym ran)
          (query_result-IsFreed _ _ s db local_db n m _ h)

    -- A query on the block's connection leaves as much open as it found, and the connection with as many
    -- statements.
    pub execute_sql-own :
        (m : ℕ)
        → ctx.sandbox ≡ true
        → name ≡ ":memory:"
        → HasStatements own m w
        → (open_count (execute_sql d own req ctx s w).2 ≡ open_count w)
          × HasStatements own m (execute_sql d own req ctx s w).2
    execute_sql-own m sandbox local has =
        let f = IsFreed-ran (
          run_query-own own ctx.sandbox (get_input_or_default req "query" "") name m (now w).1
            (rw (sandbox, local) refl) (now_has own has)) in
        (f.count ∙ k.of_now w, f.statements refl)
      where
        now_has : (db : Option ℕ) → HasStatements db m w → HasStatements db m (now w).1
        now_has none h = tt
        now_has (some c) h = (k.of_now_each w c).0 ∙ h

    -- However a valid query ends, every statement and every connection that it opened is closed again,
    -- but for a connection whose opening failed: that one stays open. A connection with a statement that
    -- is not finalized would not close.
    pub execute_sql-open_count :
        open_count (execute_sql d own req ctx s w).2
        ≡ leaked ctx.sandbox (get_input_or_default req "connection" ":memory:") (now w).1
          + open_count w
    execute_sql-open_count = elim (Bool-cases (not ctx.sandbox || not (name =ˢ ":memory:"))) [
      | inl e ↦
          let (c, h) = run_query-opened own ctx.sandbox query name (now w).1 e in
          (IsFreed-ran h).count ∙ ap (λ n. leaked ctx.sandbox name (now w).1 + n) (k.of_now w)
      | inr e ↦
          let (m, has) = counted own (now w).1 in
          (IsFreed-ran (run_query-own own ctx.sandbox query name m (now w).1 e has)).count
          ∙ k.of_now w
          ∙ rw e (omega arith)
    ]
      where
        query : String
        query = get_input_or_default req "query" ""

        counted : (db : Option ℕ) (v : World) → (m : ℕ) × HasStatements db m v
        counted none v = (0, tt)
        counted (some c) v = (statements_of c v, refl)
