-- ===== src/Tests/Queries.antt =====
-- A query on a small database.
use beamline_caf.Base.{
  ◌==◌, ==_iff, ◌≢◌, Bool, Option, arith, sym, subst, Bool-cases, inl, inr, ℕ, suc, ◌+◌, ◌-◌, ◌≡◌,
  refl, pos, true, false, ◌=ˢ◌, ◌∷◌, [], none, some, lookup, if◌then◌else◌,
}
use beamline_caf.Core.{StepRequest}
use beamline_caf.Blocks.{validate_required_inputs, get_input_or_default}
use beamline_caf.Blocks.Sql.{Database, execute_sql, new_sql_block}
use beamline_caf.Blocks.Sql.Handles.{CountsOpen, made, leaked, execute_sql-open_count}
use beamline_caf.Blocks.Sql.Life.{IsLocal, life, life-open_count}
use beamline_caf.Tests.Data.{context, get_request}

-- The world counts what is open, and the statements of each connection; a statement is named as its
-- connection. The database "bad" does not open, and every query has one row.
abbrev Opened : Type 0
Opened = ℕ × (ℕ → ℕ)

unfoldable set_statements : ℕ → ℕ → (ℕ → ℕ) → ℕ → ℕ
set_statements c m f i = if i == c then m else f i

set_statements-same : (c m : ℕ) (f : ℕ → ℕ) → set_statements c m f c ≡ m
unfolding set_statements
set_statements-same c m f = ground arith

abbrev prepare : Option ℕ → Opened → Bool × Option ℕ × Opened
prepare none w = (false, none, w)
prepare (some c) (n, f) = (true, some c, (1 + n, set_statements c (1 + f c) f))

abbrev close : ℕ → Opened → Opened
close c (n, f) = if f c == 0 then (n - 1, f) else (n, f)

abbrev database : Database
database = record {
  World = Opened;
  now = λ w. (0, w);
  sqlite3_open =
      λ name w. (if name =ˢ "bad" then false else true, 1, (suc w.0, set_statements 1 0 w.1));
  sqlite3_close = close;
  sqlite3_prepare = λ db query w. prepare db w;
  step_all = λ stmt w. (((some "id", some "7") ∷ []) ∷ [], true, w);
  sqlite3_finalize = λ stmt w. (w.0 - 1, set_statements stmt (w.1 stmt - 1) w.1);
  sqlite3_errmsg = λ db w. "error";
  sqlite3_changes = λ db w. pos 0;
}

of_prepare :
    (db : Option ℕ) (w : Opened) → (prepare db w).2.0 ≡ made (prepare db w).0 (prepare db w).1 + w.0
of_prepare none w = omega arith
of_prepare (some c) w = refl

close-free : (c : ℕ) (w : Opened) → w.1 c ≡ 0 → (close c w).0 ≡ w.0 - 1
close-free c (n, f) e = rw e refl

close-busy : (c : ℕ) (w : Opened) → w.1 c ≢ 0 → (close c w).0 ≡ w.0
close-busy c (n, f) e = elim (Bool-cases (f c == 0)) [
  | inl z ↦ absurd (e ((==_iff (f c) 0).0 z))
  | inr z ↦ rw z refl
]

abbrev database-CountsOpen : CountsOpen database
database-CountsOpen = record {
  open_count = λ w. w.0;
  statements_of = λ c w. w.1 c;
  connection_of = λ stmt w. some stmt;
  of_now = λ w. refl;
  of_now_each = λ w c. (refl, refl);
  of_open = λ name w. (refl, set_statements-same 1 0 w.1);
  of_close = close-free;
  of_busy = close-busy;
  of_prepare = λ db query w. of_prepare db w;
  of_prepare_on = λ db query w. (set_statements-same db (1 + w.1 db) w.1, λ stmt e. sym e);
  of_step = λ stmt w. refl;
  of_step_each = λ stmt w c. (refl, refl);
  of_finalize = λ stmt w. refl;
  of_finalize_on = λ stmt db w e. on_same stmt db w.1 e;
}
  where
    on_same :
        (stmt db : ℕ) (f : ℕ → ℕ)
        → some stmt ≡ some db
        → set_statements stmt (f stmt - 1) f db ≡ f db - 1
    on_same stmt db f e =
        let same : stmt ≡ db = cc in
        subst (λ c. set_statements stmt (f stmt - 1) f c ≡ f c - 1) same
          (set_statements-same stmt (f stmt - 1) f)

abbrev nothing_open : Opened
nothing_open = (0, λ c. 0)

abbrev query_request : StepRequest
query_request = record get_request {
  type = "sql.query";
  inputs = ("query", "SELECT 7") ∷ ("connection", "bad") ∷ [];
}

query_valid : validate_required_inputs query_request ("query" ∷ []) ≡ true
unfolding validate_required_inputs lookup
query_valid = refl

execute_sql-open_count_example :
    database-CountsOpen.open_count
      (execute_sql database none query_request context new_sql_block nothing_open).2
    ≡ leaked database database-CountsOpen context.sandbox
        (get_input_or_default query_request "connection" ":memory:")
        nothing_open
      + database-CountsOpen.open_count nothing_open
execute_sql-open_count_example =
    execute_sql-open_count database database-CountsOpen none query_request context new_sql_block
      nothing_open query_valid

-- A sandbox block runs two queries on the connection in memory.
abbrev local_request : StepRequest
local_request = record query_request { inputs = ("query", "SELECT 7") ∷ [] }

local_request-IsLocal : IsLocal local_request
unfolding validate_required_inputs lookup
local_request-IsLocal = (refl, refl)

life-open_count_example :
    database-CountsOpen.open_count (
      life database
        (record context { sandbox = true })
        (local_request ∷ local_request ∷ [])
        nothing_open)
    ≡ database-CountsOpen.open_count nothing_open
life-open_count_example =
    life-open_count database database-CountsOpen (record context { sandbox = true })
      (local_request ∷ local_request ∷ []) nothing_open refl
      (local_request-IsLocal, (local_request-IsLocal, tt))
