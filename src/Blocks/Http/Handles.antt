-- ===== src/Blocks/Http/Handles.antt =====
-- The curl handles that a request opens and closes.
use beamline_caf.Base.{
  ℕ, ◌+◌, ◌-◌, ◌≡◌, ◌∙◌, inl, inr, ℤ, Bool, true, false, List, String, ◌∷◌, [], arith,
  if◌then◌else◌, Bool-cases, leb, ltb, ◌&&◌,
}
use beamline_caf.Core.{BlockContext, ErrorCode, ResultMetadata, StepRequest}
use beamline_caf.Flags.{Env}
use beamline_caf.Blocks.{BlockState, fail, validate_required_inputs, Attempt, done, thrown}
use beamline_caf.Blocks.Http.{HeadersParse, parsed, parse_error, other_error}
use beamline_caf.Blocks.Http.{
  Network, CurlOption, HttpResponse, HeaderValue, answered, curl_options, performed, request_result,
  with_headers, perform_http_request, execute_http,
}

-- A network whose open handles can be counted: `curl_easy_init` opens one when it succeeds,
-- `curl_easy_cleanup` closes one, and nothing else changes their number.
pub record CountsHandles (n : Network) : Type 0 where
  pub handles : n.World → ℕ
  pub now-handles : (w : n.World) → handles (n.now w).1 ≡ handles w
  pub init-handles :
      (w : n.World)
      → handles (n.curl_easy_init w).1 ≡ (if (n.curl_easy_init w).0 then 1 else 0) + handles w
  pub perform-handles :
      (options : List CurlOption) (w : n.World)
      → handles (n.curl_easy_perform options w).1 ≡ handles w
  pub cleanup-handles : (w : n.World) → handles (n.curl_easy_cleanup w) ≡ handles w - 1

module _ (n : Network) (c : CountsHandles n) (env : Env) where
  open n use {World, now, parse_headers, curl_easy_init, curl_easy_perform}
  open c use {handles}

  performed-handles :
      (options : List CurlOption) (before : ℕ) (x : Bool × World)
      → handles x.1 ≡ (if x.0 then 1 else 0) + before
      → handles (performed n env options x).1 ≡ before
  performed-handles options before (false, w) h = omega (arith, h)
  performed-handles options before (true, w) h =
      omega
        (arith, h, c.perform-handles options w, c.cleanup-handles (curl_easy_perform options w).1)

  perform_http_request-handles :
      (address method body : String) (headers : List (String × HeaderValue)) (t : ℤ) (w : World)
      → handles (perform_http_request n env address method body headers t w).1 ≡ handles w
  unfolding perform_http_request
  perform_http_request-handles address method body headers t w =
      performed-handles (curl_options env address method body headers t) (handles w)
        (curl_easy_init w) (c.init-handles w)

  fail-handles :
      (code : ErrorCode) (message : String) (metadata : ResultMetadata) (start_time : ℕ)
      (s : BlockState) (w : World)
      → handles (fail now code message metadata start_time s w).2 ≡ handles w
  unfolding fail
  fail-handles code message metadata start_time s w = c.now-handles w

  answered-handles :
      (metadata : ResultMetadata) (start_time : ℕ) (s : BlockState) (response : HttpResponse)
      (w : World)
      → handles (answered n env metadata start_time s response w).2 ≡ handles w
  unfolding answered
  answered-handles metadata start_time s response w =
      elim (Bool-cases (leb 200 response.status_code && ltb response.status_code 300)) [
        | inl e ↦ rw e (c.now-handles w)
        | inr e ↦ rw e (fail-handles _ _ metadata start_time s w)
      ]

  request_result-handles :
      (metadata : ResultMetadata) (start_time : ℕ) (s : BlockState)
      (x : Attempt HttpResponse × World)
      → handles (request_result n env metadata start_time s x).2 ≡ handles x.1
  request_result-handles metadata start_time s (done response, w) =
      answered-handles metadata start_time s response w
  request_result-handles metadata start_time s (thrown what, w) =
      fail-handles _ _ metadata start_time s w

  with_headers-handles :
      (req : StepRequest) (metadata : ResultMetadata) (start_time : ℕ) (s : BlockState)
      (x : HeadersParse) (w : World)
      → handles (with_headers n env req metadata start_time s x w).2 ≡ handles w
  unfolding with_headers
  with_headers-handles req metadata start_time s (parsed headers) w =
      request_result-handles metadata start_time s _
      ∙ perform_http_request-handles _ _ _ headers req.timeout_ms w
  with_headers-handles req metadata start_time s (parse_error what) w =
      fail-handles _ _ metadata start_time s w
  with_headers-handles req metadata start_time s (other_error what) w =
      fail-handles _ _ metadata start_time s w

  -- However the request ends, the block leaves as many curl handles open as it found: one that it
  -- opened it has closed, also when curl reports an error.
  pub execute_http-handles :
      (req : StepRequest) (ctx : BlockContext) (s : BlockState) (w : World)
      → handles (execute_http n env req ctx s w).2 ≡ handles w
  unfolding execute_http
  execute_http-handles req ctx s w =
      elim (Bool-cases (validate_required_inputs req ("url" ∷ "method" ∷ []))) [
        | inl e ↦ rw e (with_headers-handles req _ _ s _ _ ∙ c.now-handles w)
        | inr e ↦ rw e (fail-handles _ _ _ _ s _ ∙ c.now-handles w)
      ]
