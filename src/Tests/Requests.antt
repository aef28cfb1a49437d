-- ===== src/Tests/Requests.antt =====
-- The HTTP block on a small network.
use beamline_caf.Base.{some, ℕ, ◌+◌, ◌-◌, ◌≡◌, refl, pos, inr, true, [], ◌∷◌, arith, lookup}
use beamline_caf.Core.{StepResult, empty_metadata}
use beamline_caf.Retry.{is_retryable}
use beamline_caf.Executor.{status_of}
use beamline_caf.Blocks.{validate_required_inputs, done}
use beamline_caf.Blocks.Http.{parsed}
use beamline_caf.Blocks.Http.{
  Network, curl_ok, HttpResponse, perform_http_request, execute_http, new_http_block, collect,
}
use beamline_caf.Blocks.Http.Answers.{performed_request, execute_http_retried}
use beamline_caf.Blocks.Http.Handles.{CountsHandles, execute_http-handles}
use beamline_caf.Blocks.{BlockState}
use beamline_caf.Blocks.Created.{Machine, executor_of, created, Tallies, execute_with_retry-Tallies}
use beamline_caf.Executor.{execute_with_retry}
use beamline_caf.Pool.{Block}
use beamline_caf.Tests.Blocks.{disk, sleepless}
use beamline_caf.Tests.Data.{no_flags, all_flags, context, http_request}

-- Every request is answered with this status and a body in two pieces; the world counts the handles.
abbrev network : ℕ → Network
network status = record {
  World = ℕ;
  now = λ w. (0, w);
  parse_headers = λ s. parsed [];
  curl_easy_init = λ w. (true, 1 + w);
  curl_easy_perform = λ options w.
      (record { body_pieces = "ab" ∷ "cd" ∷ []; header_pieces = []; end = curl_ok status }, w);
  curl_easy_cleanup = λ w. w - 1;
}

network-CountsHandles : (status : ℕ) → CountsHandles (network status)
network-CountsHandles status = record {
  handles = λ w. w;
  now-handles = λ w. refl;
  init-handles = λ w. refl;
  perform-handles = λ options w. refl;
  cleanup-handles = λ w. refl;
}

http_valid : validate_required_inputs http_request ("url" ∷ "method" ∷ []) ≡ true
unfolding validate_required_inputs lookup
http_valid = refl

abbrev response : ℕ → HttpResponse
response status = record { status_code = status; body = "abcd"; headers = "" }

http_performed :
    (status : ℕ)
    → performed_request (network status) all_flags http_request [] 0 ≡ (done (response status), 0)
unfolding perform_http_request collect
http_performed status = refl

execute_http_retried_example :
    is_retryable all_flags
      (execute_http (network 404) all_flags http_request context new_http_block 0).0.error_code
      (status_of http_request
        (execute_http (network 404) all_flags http_request context new_http_block 0).0
        (pos 0))
    ≡ true
execute_http_retried_example =
    execute_http_retried (network 404) all_flags http_request context new_http_block 0 http_valid
      refl (http_performed 404) (inr (omega arith))

execute_http-handles_example :
    (network-CountsHandles 500).handles
      (execute_http (network 500) no_flags http_request context new_http_block 3).2
    ≡ (network-CountsHandles 500).handles 3
execute_http-handles_example =
    execute_http-handles (network 500) (network-CountsHandles 500) no_flags http_request context
      new_http_block 3

abbrev machine : Machine
machine = record {
  files = disk true;
  network = network 200;
  sleep_beside_files = sleepless;
  sleep_beside_network = λ d w. w;
}

execute_with_retry-Tallies_example :
    (r : StepResult) × (v : BlockState × ℕ) × (execute_with_retry
        (executor_of machine no_flags Block.http_request)
        no_flags
        http_request
        (created Block.http_request, 0)
      ≡ some (r, v))
    × (r.metadata ≡ empty_metadata)
    × Tallies r v.0
execute_with_retry-Tallies_example =
    execute_with_retry-Tallies machine no_flags Block.http_request http_request 1 0 refl
      (omega arith)
