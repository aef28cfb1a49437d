-- ===== src/Tests/Processes.antt =====
-- Dry runs of requests, and processes from start to end.
use beamline_caf.Base.{ℕ, suc, ◌+◌, ◌≡◌, ◌↔◌, true, false, some, [], ◌∷◌}
use beamline_caf.Core.{StepRequest, is_success, value}
use beamline_caf.Converter.{validate_result}
use beamline_caf.Observability.Endpoint.{Calls}
use beamline_caf.Sandbox.{Machine, validate_sandbox_request, mock_execute}
use beamline_caf.Sandbox.Checks.{IsSafe, validate_sandbox_request_iff}
use beamline_caf.Sandbox.Mocks.{mock_execute-validate_result}
use beamline_caf.Main.{Wakes}
use beamline_caf.Core.{value}
use beamline_caf.Base.{[]}
use beamline_caf.Tests.Data.{get_request, http_request}

-- The world counts the readings; every draw is a failure.
abbrev machine : Machine
machine = record {
  World = ℕ;
  now = λ w. (w, suc w);
  sleep_for = λ delay w. w + delay;
  rng = λ w. (7, w);
  draw = λ w. (0, w);
  system_now = λ w. (w, w);
}

mock_execute-validate_result_example :
    validate_result (mock_execute machine http_request 0).0
    ≡ is_success (mock_execute machine http_request 0).0
mock_execute-validate_result_example = mock_execute-validate_result machine http_request 0

abbrev sql_request : StepRequest
sql_request = record get_request { type = "sql.query"; inputs = ("query", "drop table users") ∷ [] }

validate_sandbox_request_iff_example :
    (validate_sandbox_request sql_request ≡ value tt) ↔ IsSafe sql_request
validate_sandbox_request_iff_example = validate_sandbox_request_iff sql_request

abbrev calls : Calls
calls = record { socket = some 7; binds = true; listens = true }

abbrev wakes : Wakes
wakes = record { health = true; metrics = false }
