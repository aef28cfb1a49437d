-- ===== src/Sandbox/Mocks.antt =====
-- What the sandbox answers.
use beamline_caf.Base.{
  ℕ, ◌+◌, ◌≤◌, ◌<◌, ltb, pos, ◌≤ℤ◌, ◌≡◌, refl, ◌⊎◌, inl, inr, false, String, ◌=ˢ◌, find_is_zero,
  lookup, is_blank, Option, none, some, Bool-cases, arith, if◌then◌else◌, if_ind, has_infix, codes,
}
use beamline_caf.Core.{StepRequest, StepResult, ok, error, ErrorCode, is_success}
use beamline_caf.Converter.{validate_result}
use beamline_caf.Sandbox.{
  Machine, upper, failed, sql_outputs, answer_query, delay_of, within_span, mock_http_request,
  mock_fs_blob_put, mock_fs_blob_get, mock_sql_query, mock_human_approval, mock_generic_block,
  mock_by_type, start_mock, mock_execute,
}

-- A mock succeeds, or it fails with a message; it never has an error code.
pub record IsMock (r : StepResult) : Type 0 where
  pub no_code : r.error_code ≡ ErrorCode.none
  pub ends :
      ((r.status ≡ ok) × (r.error_message ≡ ""))
      ⊎ ((r.status ≡ error) × (is_blank r.error_message ≡ false))

validates : (r : StepResult) → IsMock r → pos 0 ≤ℤ r.latency_ms → validate_result r ≡ is_success r
unfolding validate_result
validates r v le = ground (arith, v.no_code, v.ends)

module _ (m : Machine) where
  open m use {World}

  -- The state of a mock before it may fail.
  abbrev IsFresh : StepResult → Type 0
  IsFresh r = (r.error_code ≡ ErrorCode.none) × (r.status ≡ ok) × (r.error_message ≡ "")

  fresh-IsMock : {r : StepResult} → IsFresh r → IsMock r
  fresh-IsMock h = record { no_code = h.0; ends = inl (h.1, h.2) }

  -- A draw decides between a failure with a message and the result so far.
  drawn-IsMock :
      (rate : ℕ) (r bad : StepResult) (w : World)
      → IsFresh r
      → IsMock bad
      → IsMock (if ltb (m.draw w).0 rate then bad else r)
  drawn-IsMock rate r bad w h f = if_ind IsMock (ltb (m.draw w).0 rate) f (fresh-IsMock h)

  sql_outputs-IsFresh :
      (query : String) (r : StepResult) → IsFresh r → IsFresh (sql_outputs query r)
  unfolding sql_outputs
  sql_outputs-IsFresh query r h = ground (
    arith,
    Bool-cases (has_infix (upper query) (codes "SELECT")),
    Bool-cases (has_infix (upper query) (codes "FROM USERS")),
    Bool-cases (has_infix (upper query) (codes "FROM PRODUCTS")),
  )

  abbrev IsResult : StepResult × World → Type 0
  IsResult x = IsMock x.0

  with_message :
      {message : String} {r : StepResult}
      → is_blank message ≡ false
      → IsFresh r
      → IsMock (failed message r)
  with_message e h = record { no_code = h.0; ends = inr (refl, e) }

  answer_query-IsFresh :
      (query : Option String) (r : StepResult) → IsFresh r → IsFresh (answer_query query r)
  unfolding answer_query
  answer_query-IsFresh none r h = h
  answer_query-IsFresh (some query) r h = sql_outputs-IsFresh query r h

  http_request-IsMock :
      (r : StepResult) (w : World) → IsFresh r → IsMock (mock_http_request m r w).0
  unfolding mock_http_request
  http_request-IsMock r w h = drawn-IsMock 5 _ _ (m.system_now w).1 h (with_message refl h)

  fs_blob_put-IsMock :
      (request : StepRequest) (r : StepResult) (w : World)
      → IsFresh r
      → IsMock (mock_fs_blob_put m request r w).0
  unfolding mock_fs_blob_put
  fs_blob_put-IsMock request r w h = drawn-IsMock 2 _ _ (m.system_now w).1 h (with_message refl h)

  fs_blob_get-IsMock :
      (request : StepRequest) (r : StepResult) (w : World)
      → IsFresh r
      → IsMock (mock_fs_blob_get m request r w).0
  unfolding mock_fs_blob_get
  fs_blob_get-IsMock request r w h = drawn-IsMock 3 _ _ (m.system_now w).1 h (with_message refl h)

  sql_query-IsMock :
      (request : StepRequest) (r : StepResult) (w : World)
      → IsFresh r
      → IsMock (mock_sql_query m request r w).0
  unfolding mock_sql_query
  sql_query-IsMock request r w h =
      let queried = answer_query-IsFresh (lookup "query" request.inputs) r h in
      drawn-IsMock 1 _ _ w queried (with_message refl queried)

  human_approval-IsMock :
      (r : StepResult) (w : World) → IsFresh r → IsMock (mock_human_approval m r w).0
  unfolding mock_human_approval
  human_approval-IsMock r w h = drawn-IsMock 10 _ _ (m.system_now (m.rng w).1).1 h (fresh-IsMock h)

  generic_block-IsMock :
      (request : StepRequest) (r : StepResult) (w : World)
      → IsFresh r
      → IsMock (mock_generic_block m request r w).0
  unfolding mock_generic_block
  generic_block-IsMock request r w h = fresh-IsMock h

  mock_by_type-IsMock :
      (request : StepRequest) (r : StepResult) (w : World)
      → IsFresh r
      → IsMock (mock_by_type m request r w).0
  unfolding mock_by_type
  mock_by_type-IsMock request r w h =
      if_ind IsResult (request.type =ˢ "http.request") (http_request-IsMock r w h) (
        if_ind IsResult (request.type =ˢ "fs.blob_put") (fs_blob_put-IsMock request r w h) (
          if_ind IsResult (request.type =ˢ "fs.blob_get") (fs_blob_get-IsMock request r w h) (
            if_ind IsResult (request.type =ˢ "sql.query") (sql_query-IsMock request r w h) (
              if_ind IsResult (request.type =ˢ "human.approval") (human_approval-IsMock r w h)
                (generic_block-IsMock request r w h)))))

  pub mock_execute-IsMock :
      (request : StepRequest) (w : World) → IsMock (mock_execute m request w).0
  unfolding mock_execute start_mock
  mock_execute-IsMock request w =
      let fresh : StepResult × World = start_mock m request (m.now w).1 in
      let v = mock_by_type-IsMock request fresh.0 fresh.1 (refl, refl, refl) in
      record { no_code = v.no_code; ends = v.ends }

  -- A mock result passes the validation of results exactly when it is a success: a mock failure has a
  -- message but no error code, which the validation turns away.
  pub mock_execute-validate_result :
      (request : StepRequest) (w : World)
      → validate_result (mock_execute m request w).0 ≡ is_success (mock_execute m request w).0
  mock_execute-validate_result request w =
      validates (mock_execute m request w).0 (mock_execute-IsMock request w)
        (unfold mock_execute in omega arith)

  abbrev pub IsDelay : ℕ × World → Type 0
  IsDelay x = (20 ≤ x.0) × (x.0 < 5000)

  within_span-IsDelay :
      (base span : ℕ) (w : World)
      → 20 ≤ base
      → 0 < span
      → base + span ≤ 5000
      → IsDelay (within_span m base span w)
  within_span-IsDelay base span w low some_span high = omega arith

  -- A dry run sleeps at least 20 milliseconds and less than five seconds, whatever its type.
  pub delay_of-IsDelay :
      (block_type : String) (w : World)
      → (20 ≤ (delay_of m block_type w).0) × ((delay_of m block_type w).0 < 5000)
  unfolding delay_of
  delay_of-IsDelay block_type w =
      if_ind IsDelay (find_is_zero block_type "http.")
        (within_span-IsDelay 100 400 w (omega arith) (omega arith) (omega arith))
        (if_ind IsDelay (find_is_zero block_type "fs.")
          (within_span-IsDelay 20 180 w (omega arith) (omega arith) (omega arith))
          (if_ind IsDelay (find_is_zero block_type "sql.")
            (within_span-IsDelay 30 270 w (omega arith) (omega arith) (omega arith))
            (if_ind IsDelay (find_is_zero block_type "human.")
              (within_span-IsDelay 1000 4000 w (omega arith) (omega arith) (omega arith))
              (omega arith, omega arith))))
