-- ===== src/Blocks/Sql.antt =====
-- processor/src/blocks/sql_block.cpp: the block that runs an SQL query.
pub mod Handles
pub mod Life
use beamline_caf.Base.{
  ℕ, ◌-◌, ℤ, pos, Bool, true, false, ◌&&◌, ◌||◌, not, List, [], ◌∷◌, length, String, ◌=ˢ◌, ◌+ˢ◌,
  Dict, insert, to_string, int_to_string, Option, none, some, if◌then◌else◌,
}
use beamline_caf.Core.{
  BlockContext, ResultMetadata, StepRequest, ErrorCode, success, cpu, metadata_from_context,
  Expected, value, failure,
}
use beamline_caf.Blocks.{
  BlockState, new_block, fail, record_success, validate_required_inputs, get_input_or_default,
  Attempt, done, thrown, Outcome, init,
}

-- A column of a row: its name and its value, either of which may be a null pointer.
abbrev pub Column : Type 0
Column = Option String × Option String

-- The clock and SQLite. A connection is `none` for a null pointer. `step_all` gives the rows that the
-- calls of `sqlite3_step` return one after the other, and whether the code after them is SQLITE_DONE.
-- `sqlite3_prepare` says whether it returned SQLITE_OK, and gives the statement, which is a null pointer
-- for a text without a statement and after an error. `sqlite3_open` says whether it returned SQLITE_OK; it makes a connection in either case.
pub record Database : Type 1 where
  pub World : Type 0
  pub now : World → ℕ × World
  pub sqlite3_open : String → World → Bool × ℕ × World
  pub sqlite3_close : ℕ → World → World
  pub sqlite3_prepare : Option ℕ → String → World → Bool × Option ℕ × World
  pub step_all : Option ℕ → World → List (List Column) × Bool × World
  pub sqlite3_finalize : ℕ → World → World
  pub sqlite3_errmsg : Option ℕ → World → String
  pub sqlite3_changes : Option ℕ → World → ℤ

unfoldable pub new_sql_block : BlockState
new_sql_block = new_block "sql.query" cpu

-- A row keeps the columns that have a name and a value.
unfoldable pub row_of : List Column → Dict → Dict
row_of [] row = row
row_of ((some name, some text) ∷ columns) row = row_of columns (insert name text row)
row_of (_ ∷ columns) row = row_of columns row

-- The rows as text: the names and the values stand in it as they are, without escapes.
unfoldable pub fields_text : Bool → Dict → String
fields_text first [] = ""
fields_text first ((key, text) ∷ row) =
    (if first then "" else ",") +ˢ ("\"" +ˢ key +ˢ "\":\"" +ˢ text +ˢ "\"") +ˢ fields_text false row

unfoldable pub rows_text : Bool → List (List Column) → String
unfolding fields_text row_of
rows_text first [] = "]"
rows_text first (columns ∷ rows) =
    (if first then "" else ",")
    +ˢ ("{" +ˢ fields_text true (row_of columns []) +ˢ "}")
    +ˢ rows_text false rows

unfoldable pub outputs_of : List (List Column) → ℤ → Dict
unfolding rows_text
outputs_of [] affected_rows = insert "affected_rows" (int_to_string affected_rows) []
outputs_of (columns ∷ rows) affected_rows =
    insert "row_count" (to_string (length (columns ∷ rows)))
      (insert "rows" ("[" +ˢ rows_text true (columns ∷ rows)) [])

module _ (d : Database) where
  open d use {
    World, now, sqlite3_open, sqlite3_close, sqlite3_prepare, step_all, sqlite3_finalize,
    sqlite3_errmsg, sqlite3_changes,
  }

  -- A connection that the call opened itself is closed.
  abbrev pub release : Bool → Option ℕ → World → World
  release local_db none w = w
  release local_db (some db) w = if local_db then sqlite3_close db w else w

  -- The destructor of `StatementGuard`.
  abbrev pub guard : Option ℕ → Bool → Option ℕ → World → World
  guard none local_db db w = release local_db db w
  guard (some stmt) local_db db w = release local_db db (sqlite3_finalize stmt w)

  -- What the query gives: outputs, with the destructor that runs when the result is returned, or an
  -- exception, on whose way out the destructor has run.
  abbrev pub Answer : Type 0
  Answer = Attempt (Dict × (World → World)) × World

  abbrev pub finished : Option ℕ → Bool → Option ℕ → List (List Column) × Bool × World → Answer
  finished db local_db stmt (rows, true, w) =
      (done (outputs_of rows (sqlite3_changes db w), guard stmt local_db db), w)
  finished db local_db stmt (rows, false, w) =
      (thrown ("Query execution failed: " +ˢ sqlite3_errmsg db w), guard stmt local_db db w)

  -- A query that does not prepare: the connection is closed first, and the text of the error is then
  -- asked of the closed connection.
  abbrev pub prepared : Option ℕ → Bool → Bool × Option ℕ × World → Answer
  prepared db local_db (false, stmt, w) =
      let w' : World = release local_db db w in
      (thrown ("Failed to prepare statement: " +ˢ sqlite3_errmsg db w'), w')
  prepared db local_db (true, stmt, w) = finished db local_db stmt (step_all stmt w)

  abbrev pub connected : String → String → Bool × ℕ × World → Answer
  connected query connection_string (true, db, w) =
      prepared (some db) true (sqlite3_prepare (some db) query w)
  connected query connection_string (false, db, w) =
      (thrown ("Failed to open database: " +ˢ connection_string), w)

  -- The body of the try block; `own` is the connection that `init` opened, if it did.
  unfoldable pub run_query : Option ℕ → Bool → String → String → World → Answer
  run_query own sandbox query connection_string w =
      if not sandbox || not (connection_string =ˢ ":memory:")
      then connected query connection_string (sqlite3_open connection_string w)
      else prepared own false (sqlite3_prepare own query w)

  unfoldable pub query_result : ResultMetadata → ℕ → BlockState → Answer → Outcome World
  query_result metadata start_time s (done (outputs, destructor), w) =
      let (end_time, w') = now w in
      let latency_ms : ℕ = end_time - start_time in
      (
        success metadata outputs (pos latency_ms),
        record_success latency_ms (pos 0) (pos 0) s,
        destructor w',
      )
  query_result metadata start_time s (thrown what, w) =
      fail now ErrorCode.execution_failed ("SQL query execution failed: " +ˢ what) metadata
        start_time s w

  -- `SqlBlockExecutor::execute_impl`.
  unfoldable pub execute_sql :
      Option ℕ → StepRequest → BlockContext → BlockState → World → Outcome World
  execute_sql own req ctx s w =
      let (start_time, w1) = now w in
      let metadata : ResultMetadata = metadata_from_context ctx in
      if not (validate_required_inputs req ("query" ∷ []))
      then fail now ErrorCode.missing_required_field "Missing required input: query" metadata
          start_time s w1
      else query_result metadata start_time s (
          run_query own ctx.sandbox (get_input_or_default req "query" "")
            (get_input_or_default req "connection" ":memory:") w1)

  -- What `init` leaves: its answer, the block, its own connection, and the world.
  abbrev pub Initialised : Type 0
  Initialised = Expected (Unit {0}) × BlockState × Option ℕ × World

  -- `sqlite3_open` sets `db_` whatever it returns.
  abbrev pub opened_own : BlockState → Bool × ℕ × World → Initialised
  opened_own s (true, db, w) = (value tt, s, some db, w)
  opened_own s (false, db, w) = (failure "Failed to open SQLite database", s, some db, w)

  -- `SqlBlockExecutor::init`. An older connection is overwritten, not closed.
  unfoldable pub init_sql : BlockContext → BlockState → Option ℕ → World → Initialised
  unfolding init
  init_sql ctx s own w =
      if ctx.sandbox
      then opened_own (init ctx s) (sqlite3_open ":memory:" w)
      else (value tt, init ctx s, own, w)

  -- The destructor.
  unfoldable pub destroy_sql : Option ℕ → World → World
  destroy_sql none w = w
  destroy_sql (some db) w = sqlite3_close db w
