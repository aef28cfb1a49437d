-- ===== src/Blocks/Http/Answers.antt =====
-- How an HTTP answer becomes the result of the step.
use beamline_caf.Base.{
  ℕ, ◌≤◌, ◌<◌, ◌≡◌, refl, ◌⊎◌, inl, inr, lookup, pos, leb, ltb, true, ◌&&◌, List, String, ◌∷◌, [],
  arith, Bool-cases,
}
use beamline_caf.Core.{
  BlockContext, ResultMetadata, StepRequest, success, error_result, metadata_from_context,
}
use beamline_caf.Flags.{Env}
use beamline_caf.Retry.{is_retryable, is_retryable_code}
use beamline_caf.Executor.{status_of}
use beamline_caf.Blocks.{
  BlockState, fail, record_success, validate_required_inputs, get_input_or_default, Attempt, done,
  thrown,
}
use beamline_caf.Blocks.Counts.{IsCounted, fail-IsCounted}
use beamline_caf.Blocks.Http.{parsed, parse_error, other_error}
use beamline_caf.Blocks.Http.{
  Network, HttpResponse, HeaderValue, answered, request_result, with_headers, perform_http_request,
  execute_http,
}

module _ (n : Network) (env : Env) where
  open n use {World, now, parse_headers}

  answered-IsCounted :
      (ctx : BlockContext) (start_time : ℕ) (s : BlockState) (response : HttpResponse) (w : World)
      → IsCounted ctx s
          (answered n env (metadata_from_context ctx) start_time s response w).0
          (answered n env (metadata_from_context ctx) start_time s response w).1
  unfolding answered success record_success
  answered-IsCounted ctx start_time s response w =
      elim (Bool-cases (leb 200 response.status_code && ltb response.status_code 300)) [
        | inl e ↦ rw e (refl, refl, inl (refl, refl, refl, refl))
        | inr e ↦ rw e (fail-IsCounted now _ _ ctx start_time s w)
      ]

  request_result-IsCounted :
      (ctx : BlockContext) (start_time : ℕ) (s : BlockState) (x : Attempt HttpResponse × World)
      → IsCounted ctx s
          (request_result n env (metadata_from_context ctx) start_time s x).0
          (request_result n env (metadata_from_context ctx) start_time s x).1
  request_result-IsCounted ctx start_time s (done response, w) =
      answered-IsCounted ctx start_time s response w
  request_result-IsCounted ctx start_time s (thrown what, w) =
      fail-IsCounted now _ _ ctx start_time s w

  with_headers-IsCounted :
      (req : StepRequest) (ctx : BlockContext) (start_time : ℕ) (s : BlockState) (x : _) (w : World)
      → IsCounted ctx s
          (with_headers n env req (metadata_from_context ctx) start_time s x w).0
          (with_headers n env req (metadata_from_context ctx) start_time s x w).1
  unfolding with_headers
  with_headers-IsCounted req ctx start_time s (parsed headers) w =
      request_result-IsCounted ctx start_time s _
  with_headers-IsCounted req ctx start_time s (parse_error what) w =
      fail-IsCounted now _ _ ctx start_time s w
  with_headers-IsCounted req ctx start_time s (other_error what) w =
      fail-IsCounted now _ _ ctx start_time s w

  -- Whatever the request and the network, the HTTP block returns a success or an error with the ids
  -- of its context, and counts it as that and as nothing else; an error carries no outputs.
  pub execute_http-IsCounted :
      (req : StepRequest) (ctx : BlockContext) (s : BlockState) (w : World)
      → IsCounted ctx s (execute_http n env req ctx s w).0 (execute_http n env req ctx s w).1
  unfolding execute_http
  execute_http-IsCounted req ctx s w =
      elim (Bool-cases (validate_required_inputs req ("url" ∷ "method" ∷ []))) [
        | inl e ↦ rw e (with_headers-IsCounted req ctx _ s _ _)
        | inr e ↦ rw e (fail-IsCounted now _ _ ctx _ s _)
      ]

  -- The request as the block performs it, once it is valid and its headers are read.
  abbrev pub performed_request :
      StepRequest → List (String × HeaderValue) → World → Attempt HttpResponse × World
  performed_request req headers =
      perform_http_request n env (get_input_or_default req "url" "")
        (get_input_or_default req "method" "") (get_input_or_default req "body" "") headers
        req.timeout_ms

  answered-retried :
      (req : StepRequest) (metadata : ResultMetadata) (start_time : ℕ) (s : BlockState)
      (response : HttpResponse) (w : World)
      → ((response.status_code < 200) ⊎ (300 ≤ response.status_code))
      → is_retryable env
          (answered n env metadata start_time s response w).0.error_code
          (status_of req (answered n env metadata start_time s response w).0 (pos 0))
        ≡ true
  unfolding answered fail error_result status_of lookup is_retryable is_retryable_code
  answered-retried req metadata start_time s response w refused = ground arith

  -- Every answer outside 2xx is tried again, a client error (4xx) like a server error: the error
  -- result carries no outputs, so the retry loop finds no status code in it.
  pub execute_http_retried :
      (req : StepRequest) (ctx : BlockContext) (s : BlockState) (w : World)
      {headers : List (String × HeaderValue)} {response : HttpResponse} {v : World}
      → validate_required_inputs req ("url" ∷ "method" ∷ []) ≡ true
      → parse_headers (get_input_or_default req "headers" "{}") ≡ parsed headers
      → performed_request req headers (now w).1 ≡ (done response, v)
      → ((response.status_code < 200) ⊎ (300 ≤ response.status_code))
      → is_retryable env
          (execute_http n env req ctx s w).0.error_code
          (status_of req (execute_http n env req ctx s w).0 (pos 0))
        ≡ true
  unfolding execute_http with_headers
  execute_http_retried req ctx s w valid read answer refused =
      rw (valid, read, answer) (answered-retried req _ _ s _ _ refused)
