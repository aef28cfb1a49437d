-- ===== src/Sandbox.antt =====
-- processor/src/sandbox.cpp, `Sandbox`: mock results for dry runs, and the check of a request.
pub mod Cases
pub mod Checks
pub mod Mocks
use beamline_caf.Base.{
  ℕ, ◌+◌, ◌-◌, ◌%◌, ltb, ℤ, pos, Bool, true, false, ◌||◌, ◌&&◌, List, [], ◌∷◌, map, any, String,
  ◌=ˢ◌, ◌+ˢ◌, codes, to_upper, to_string, find_is_zero, has_infix, contains, Dict, lookup, insert,
  is_some, or_else, Option, none, some, if◌then◌else◌,
}
use beamline_caf.Core.{
  StepRequest, StepResult, StepStatus, ok, error, default_result, BlockContext, Expected, value,
  failure,
}

-- The machine: the steady clock in milliseconds, the sleep, the generator `rng_`, a draw of
-- `success_dist_`, which is between 0 and 100, and the system clock in its own ticks.
pub record Machine : Type 1 where
  pub World : Type 0
  pub now : World → ℕ × World
  pub sleep_for : ℕ → World → World
  pub rng : World → ℕ × World
  pub draw : World → ℕ × World
  pub system_now : World → ℕ × World

-- `::toupper` on every character.
abbrev pub upper : String → List ℕ
upper s = map to_upper (codes s)

abbrev pub forbidden_keywords : List String
forbidden_keywords = "DROP" ∷ "DELETE" ∷ "TRUNCATE" ∷ "ALTER" ∷ "CREATE" ∷ "GRANT" ∷ "REVOKE" ∷ []

-- The three checks of `validate_sandbox_request`, each `true` when the request is turned away.
unfoldable pub runs_system : StepRequest → Bool
runs_system request = find_is_zero request.type "exec." || find_is_zero request.type "system."

-- A test on an input, if the request has it.
abbrev pub on_input : (String → Bool) → Option String → Bool
on_input test none = false
on_input test (some text) = test text

abbrev pub is_file_url : String → Bool
is_file_url url = find_is_zero url "file://" || find_is_zero url "ftp://"

unfoldable pub opens_file : StepRequest → Bool
opens_file request =
    request.type =ˢ "http.request" && on_input is_file_url (lookup "url" request.inputs)

abbrev pub is_destructive : String → Bool
is_destructive query = any (λ keyword. has_infix (upper query) (codes keyword)) forbidden_keywords

unfoldable pub destroys : StepRequest → Bool
destroys request =
    request.type =ˢ "sql.query" && on_input is_destructive (lookup "query" request.inputs)

unfoldable pub validate_sandbox_request : StepRequest → Expected (Unit {0})
unfolding runs_system opens_file destroys
validate_sandbox_request request =
    if runs_system request
    then failure "Sandbox mode: system execution blocks not allowed"
    else if opens_file request
    then failure "Sandbox mode: file:// and ftp:// URLs not allowed"
    else if destroys request
    then failure "Sandbox mode: destructive SQL operations not allowed"
    else value tt

abbrev pub users : String
users = "[{\"id\": 1, \"name\": \"John Doe\"}, {\"id\": 2, \"name\": \"Jane Smith\"}]"

abbrev pub products : String
products =
    "[{\"id\": 1, \"name\": \"Product A\", \"price\": 29.99}, {\"id\": 2, \"name\": \"Product B\", \"price\": 49.99}]"

abbrev pub put : String → String → StepResult → StepResult
put key text r = record r { outputs = insert key text r.outputs }

-- `status = error`, with a message; the error code stays as it was.
abbrev pub failed : String → StepResult → StepResult
failed message r = record r { status = error; error_message = message }

-- What an SQL query is answered with.
unfoldable pub sql_outputs : String → StepResult → StepResult
unfolding insert
sql_outputs query r =
    if has_infix (upper query) (codes "SELECT")
    then if has_infix (upper query) (codes "FROM USERS")
      then put "row_count" "2" (put "rows" users r)
      else if has_infix (upper query) (codes "FROM PRODUCTS")
      then put "row_count" "2" (put "rows" products r)
      else put "row_count" "1" (put "rows" "[{\"id\": 1, \"name\": \"Mock Item\"}]" r)
    else put "affected_rows" "1" r

-- A request without a query gets no outputs.
unfoldable pub answer_query : Option String → StepResult → StepResult
unfolding sql_outputs
answer_query none r = r
answer_query (some query) r = sql_outputs query r

module _ (m : Machine) where
  open m use {World, now, sleep_for, rng, draw, system_now}

  -- `base + rng_() % span`.
  abbrev pub within_span : ℕ → ℕ → World → ℕ × World
  within_span base span w = let (n, v) = rng w in (base + n % span, v)

  -- The delay of `simulate_execution_delay`; without a known prefix the generator is not asked.
  unfoldable pub delay_of : String → World → ℕ × World
  delay_of block_type w =
      if find_is_zero block_type "http."
      then within_span 100 400 w
      else if find_is_zero block_type "fs."
      then within_span 20 180 w
      else if find_is_zero block_type "sql."
      then within_span 30 270 w
      else if find_is_zero block_type "human."
      then within_span 1000 4000 w
      else (50, w)

  unfoldable pub simulate_execution_delay : String → World → World
  unfolding delay_of
  simulate_execution_delay block_type w =
      let (delay_ms, v) = delay_of block_type w in sleep_for delay_ms v

  unfoldable pub generate_mock_latency : String → World → ℕ × World
  generate_mock_latency block_type w =
      if find_is_zero block_type "http."
      then within_span 100 400 w
      else if find_is_zero block_type "fs."
      then within_span 20 180 w
      else if find_is_zero block_type "sql."
      then within_span 30 270 w
      else if find_is_zero block_type "human."
      then within_span 1000 4000 w
      else within_span 50 200 w

  -- A draw below the rate makes the step fail.
  abbrev pub fails_at : ℕ → (StepResult → StepResult) → StepResult → World → StepResult × World
  fails_at rate failing r w = let (n, v) = draw w in (if ltb n rate then failing r else r, v)

  unfoldable pub mock_http_request : StepResult → World → StepResult × World
  unfolding insert
  mock_http_request r w =
      let (time, v) = system_now w in
      let body : String =
        "{\"message\": \"Mock HTTP response\", \"timestamp\": \"" +ˢ to_string time +ˢ "}" in
      let answered : StepResult =
        put "headers" "{\"content-type\": \"application/json\", \"x-mock\": \"true\"}"
          (put "body" body (put "status_code" "200" r)) in
      fails_at 5 (λ a. failed "Mock server error" (put "status_code" "500" a)) answered v

  unfoldable pub mock_fs_blob_put : StepRequest → StepResult → World → StepResult × World
  unfolding insert
  mock_fs_blob_put request r w =
      let (time, v) = system_now w in
      let path : String = or_else (lookup "path" request.inputs) "/tmp/mock_file.txt" in
      fails_at 2 (failed "Mock file system error")
        (put "created" (to_string time) (put "size" "1024" (put "path" path r))) v

  unfoldable pub mock_fs_blob_get : StepRequest → StepResult → World → StepResult × World
  unfolding insert
  mock_fs_blob_get request r w =
      let (time, v) = system_now w in
      let path : String = or_else (lookup "path" request.inputs) "/tmp/mock_file.txt" in
      fails_at 3 (failed "Mock file not found")
        (put "modified" (to_string time)
          (put "size" "1024" (put "content" "Mock file content" (put "path" path r))))
        v

  unfoldable pub mock_sql_query : StepRequest → StepResult → World → StepResult × World
  unfolding answer_query
  mock_sql_query request r w =
      fails_at 1 (failed "Mock database error") (answer_query (lookup "query" request.inputs) r) w

  -- A rejection is no failure of the step.
  unfoldable pub mock_human_approval : StepResult → World → StepResult × World
  unfolding insert
  mock_human_approval r w =
      let (n, v) = rng w in
      let (time, u) = system_now v in
      let answered : StepResult = put "reason" "Mock approval for testing" (
        put "approved_at" (to_string time) (
          put "approved_by" "mock_user" (
            put "decision" "approved" (
              put "status" "approved"
                (put "approval_id" ("mock_approval_" +ˢ to_string (n % 10000)) r))))) in
      fails_at 10
        (λ a.
          put "reason" "Mock rejection for testing"
            (put "decision" "rejected" (put "status" "rejected" a)))
        answered u

  unfoldable pub mock_generic_block : StepRequest → StepResult → World → StepResult × World
  unfolding insert
  mock_generic_block request r w =
      let (n, v) = rng w in
      (
        put "execution_id" ("mock_exec_" +ˢ to_string (n % 10000))
            (put "block_type" request.type (put "mock_result" "true" r)),
        v,
      )

  unfoldable pub mock_by_type : StepRequest → StepResult → World → StepResult × World
  unfolding mock_http_request mock_fs_blob_put mock_fs_blob_get mock_sql_query mock_human_approval
      mock_generic_block
  mock_by_type request r w =
      if request.type =ˢ "http.request"
      then mock_http_request r w
      else if request.type =ˢ "fs.blob_put"
      then mock_fs_blob_put request r w
      else if request.type =ˢ "fs.blob_get"
      then mock_fs_blob_get request r w
      else if request.type =ˢ "sql.query"
      then mock_sql_query request r w
      else if request.type =ˢ "human.approval"
      then mock_human_approval r w
      else mock_generic_block request r w

  -- `mock_execute` up to the result that the mocks fill; the latency that is drawn here is
  -- overwritten at the end.
  unfoldable pub start_mock : StepRequest → World → StepResult × World
  unfolding simulate_execution_delay generate_mock_latency
  start_mock request w =
      let (latency, v) =
        generate_mock_latency request.type (simulate_execution_delay request.type w) in
      (record default_result { status = ok; latency_ms = pos latency }, v)

  -- It never returns an error value.
  unfoldable pub mock_execute : StepRequest → World → StepResult × World
  unfolding start_mock mock_by_type
  mock_execute request w =
      let (start_time, w1) = now w in
      let (fresh, w2) = start_mock request w1 in
      let (result, w3) = mock_by_type request fresh w2 in
      let (end_time, w4) = now w3 in
      (record result { latency_ms = pos (end_time - start_time) }, w4)
