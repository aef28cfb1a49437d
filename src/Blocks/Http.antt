-- ===== src/Blocks/Http.antt =====
-- processor/src/blocks/http_block.cpp: the block that sends an HTTP request.
pub mod Answers
pub mod Options
pub mod Handles
use beamline_caf.Base.{
  ℕ, ◌-◌, ℤ, pos, ltb_ℤ, leb, ltb, sub_ℤ, Bool, true, false, ◌&&◌, ◌||◌, not, List, [], ◌∷◌, ◌++◌,
  map, String, ◌=ˢ◌, ◌+ˢ◌, Dict, insert, contains, to_string, byte_length, Option, none, some,
  if◌then◌else◌,
}
use beamline_caf.Core.{
  BlockContext, ResultMetadata, StepRequest, StepResult, ErrorCode, success, io,
  metadata_from_context,
}
use beamline_caf.Flags.{Env, is_complete_timeout_enabled}
use beamline_caf.Timeouts.{get_http_connection_timeout_ms}
use beamline_caf.Blocks.{
  BlockState, new_block, fail, record_success, record_error, validate_required_inputs,
  get_input_or_default, Attempt, done, thrown, M, Outcome,
}

-- A value of the headers' JSON: a string, or something else as `dump` prints it.
pub data HeaderValue : Type 0 where
  text dumped : String → HeaderValue

-- The options that the block sets on a curl handle, with the callbacks left out.
pub data CurlOption : Type 0 where
  url : String → CurlOption
  connect_timeout_ms timeout_ms : ℤ → CurlOption
  http_get post : CurlOption
  post_fields : String → CurlOption
  post_field_size : ℕ → CurlOption
  custom_request : String → CurlOption
  http_header : List String → CurlOption

-- What `curl_easy_perform` does: the pieces that it hands to the two callbacks, and its end, an
-- error's text or the response code.
pub data End : Type 0 where
  curl_error : String → End
  curl_ok : (response_code : ℕ) → End

pub record Transfer : Type 0 where
  pub body_pieces : List String
  pub header_pieces : List String
  pub end : End

-- The clock, the JSON parser with the items of what it reads, and curl.
-- What `json::parse` comes to: an exception is a `parse_error` or another one, as for a number that is
-- out of range.
pub data HeadersParse : Type 0 where
  parsed : List (String × HeaderValue) → HeadersParse
  parse_error other_error : (what : String) → HeadersParse

pub record Network : Type 1 where
  pub World : Type 0
  pub now : World → ℕ × World
  pub parse_headers : String → HeadersParse
  pub curl_easy_init : World → Bool × World
  pub curl_easy_perform : List CurlOption → World → Transfer × World
  pub curl_easy_cleanup : World → World

pub record HttpResponse : Type 0 where
  pub status_code : ℕ
  pub body : String
  pub headers : String

-- `write_callback` and `header_callback`: null pointers take nothing, and a piece is appended. The
-- answer is the number of bytes taken, and the buffer.
abbrev pub write_callback : Option String → Option String → ℕ × Option String
write_callback (some piece) (some buffer) = (byte_length piece, some (buffer +ˢ piece))
write_callback (some piece) none = (0, none)
write_callback none buffer = (0, buffer)

-- The buffer after the pieces of a transfer.
unfoldable pub collect : List String → Option String → Option String
collect [] buffer = buffer
collect (piece ∷ pieces) buffer = collect pieces (write_callback (some piece) buffer).1

abbrev pub buffer_or_empty : Option String → String
buffer_or_empty none = ""
buffer_or_empty (some buffer) = buffer

-- The timeouts. The connection timeout is taken off the step's timeout, unless nothing would be left.
unfoldable pub timeout_options : Env → ℤ → List CurlOption
timeout_options env step_timeout_ms =
    if is_complete_timeout_enabled env
    then (let connection_timeout : ℤ = get_http_connection_timeout_ms env in
        let request_timeout : ℤ = sub_ℤ step_timeout_ms connection_timeout in
        connect_timeout_ms connection_timeout
        ∷ timeout_ms (if ltb_ℤ (pos 0) request_timeout then request_timeout else step_timeout_ms)
        ∷ [])
    else timeout_ms step_timeout_ms ∷ []

unfoldable pub method_options : String → String → List CurlOption
method_options method body =
    if method =ˢ "GET"
    then http_get ∷ []
    else if method =ˢ "POST"
    then post ∷ post_fields body ∷ post_field_size (byte_length body) ∷ []
    else if method =ˢ "PUT"
    then custom_request "PUT" ∷ post_fields body ∷ post_field_size (byte_length body) ∷ []
    else if method =ˢ "DELETE"
    then custom_request "DELETE" ∷ []
    else []

abbrev pub header_line : String × HeaderValue → String
header_line (key, text value) = key +ˢ (": " +ˢ value)
header_line (key, dumped value) = key +ˢ (": " +ˢ value)

abbrev pub header_options : List String → List CurlOption
header_options [] = []
header_options (line ∷ lines) = http_header (line ∷ lines) ∷ []

unfoldable pub curl_options :
    Env → String → String → String → List (String × HeaderValue) → ℤ → List CurlOption
curl_options env address method body headers step_timeout_ms =
    url address ∷ timeout_options env step_timeout_ms
    ++ (method_options method body ++ header_options (map header_line headers))

module _ (n : Network) (env : Env) where
  open n use {World, now, parse_headers, curl_easy_init, curl_easy_perform, curl_easy_cleanup}

  abbrev pub response_of : Transfer → Attempt HttpResponse
  response_of t = elim (t.end) [
    | curl_error what ↦ thrown ("CURL request failed: " +ˢ what)
    | curl_ok response_code ↦ done (record {
      status_code = response_code;
      body = buffer_or_empty (collect t.body_pieces (some ""));
      headers = buffer_or_empty (collect t.header_pieces (some ""));
    })
  ]

  abbrev pub performed : List CurlOption → Bool × World → Attempt HttpResponse × World
  performed options (false, w) = (thrown "Failed to initialize CURL", w)
  performed options (true, w) =
      let (transfer, w') = curl_easy_perform options w in
      (response_of transfer, curl_easy_cleanup w')

  unfoldable pub perform_http_request :
      String → String → String → List (String × HeaderValue) → ℤ → M World HttpResponse
  perform_http_request address method body headers step_timeout_ms w =
      performed (curl_options env address method body headers step_timeout_ms) (curl_easy_init w)

  -- The code of an exception: a text about a timeout tells it.
  abbrev pub exception_code : String → ErrorCode
  exception_code error_msg =
      if contains error_msg "timeout" || contains error_msg "TIMEOUT"
      then ErrorCode.connection_timeout
      else ErrorCode.network_error

  unfoldable pub answered : ResultMetadata → ℕ → BlockState → HttpResponse → World → Outcome World
  answered metadata start_time s response w =
      if leb 200 response.status_code && ltb response.status_code 300
      then (let (end_time, w') = now w in
          let latency_ms : ℕ = end_time - start_time in
          let outputs : Dict = insert "headers" response.headers (
            insert "body" response.body
              (insert "status_code" (to_string response.status_code) [])) in
          (
            success metadata outputs (pos latency_ms),
            record_success latency_ms (pos 0) (pos 0) s,
            w',
          ))
      else fail now ErrorCode.http_error
          ("HTTP request failed with status: " +ˢ to_string response.status_code) metadata
          start_time s w

  abbrev pub request_result :
      ResultMetadata → ℕ → BlockState → Attempt HttpResponse × World → Outcome World
  request_result metadata start_time s (done response, w) =
      answered metadata start_time s response w
  request_result metadata start_time s (thrown what, w) =
      let error_msg : String = "HTTP request exception: " +ˢ what in
      fail now (exception_code error_msg) error_msg metadata start_time s w

  unfoldable pub with_headers :
      StepRequest → ResultMetadata → ℕ → BlockState → HeadersParse → World → Outcome World
  with_headers req metadata start_time s (parsed headers) w = request_result metadata start_time s (
      perform_http_request (get_input_or_default req "url" "")
        (get_input_or_default req "method" "") (get_input_or_default req "body" "") headers
        req.timeout_ms w)
  with_headers req metadata start_time s (parse_error what) w =
      fail now ErrorCode.invalid_format ("Invalid headers JSON: " +ˢ what) metadata start_time s w
  with_headers req metadata start_time s (other_error what) w =
      request_result metadata start_time s (thrown what, w)

  -- `HttpBlockExecutor::execute_impl`.
  unfoldable pub execute_http : StepRequest → BlockContext → BlockState → World → Outcome World
  execute_http req ctx s w =
      let (start_time, w1) = now w in
      let metadata : ResultMetadata = metadata_from_context ctx in
      if not (validate_required_inputs req ("url" ∷ "method" ∷ []))
      then fail now ErrorCode.missing_required_field "Missing required inputs: url, method" metadata
          start_time s w1
      else with_headers req metadata start_time s
          (parse_headers (get_input_or_default req "headers" "{}")) w1

unfoldable pub new_http_block : BlockState
new_http_block = new_block "http.request" io
