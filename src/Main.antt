-- ===== src/Main.antt =====
-- processor/src/main.cpp, `caf_main`: the start and the end of the worker process; and
-- processor/src/ingress_actor.cpp, which it spawns.
pub mod Ends
use Prim.Native.Char.{Char, code}
use Prim.Native.String
use beamline_caf.Base.{
  ℕ, ◌+◌, ◌-◌, ◌%◌, ◌^◌, ◌==◌, ltb, ℤ, pos, negsuc, add_ℤ, ltb_ℤ, Bool, true, false, List, [], ◌∷◌,
  ◌++◌, String, ◌=ˢ◌, ◌+ˢ◌, stoi, int_to_string, to_string, Option, none, some, if◌then◌else◌,
}
use beamline_caf.Core.{WorkerConfig, Expected, value, failure}
use beamline_caf.Flags.{Env}
use beamline_caf.Observability.Log.{Line, Level, info, plain_line}
use beamline_caf.Observability.Metrics.{set_health_status}
use beamline_caf.Observability.Endpoint.{
  Server, new_server, Calls, start_health_endpoint, start_metrics_endpoint, stop_endpoint,
}
use beamline_caf.Worker.{WorkerActorState, new_worker}

abbrev pub cons_before : Char → Option (String × String) → Option (String × String)
cons_before c none = none
cons_before c (some (before, after)) = some (String.◌∷◌ c before, after)

-- `find(':')` with the two calls of `substr`: what stands before and after the first colon.
unfoldable pub split_at_colon : String → Option (String × String)
split_at_colon String.[] = none
split_at_colon (String.◌∷◌ c s) =
    let later : Option (String × String) = cons_before c (split_at_colon s) in
    if code c == b':' then some ("", s) else later

-- `static_cast<uint16_t>`.
unfoldable pub to_uint16 : ℤ → ℕ
to_uint16 (pos n) = n % 2 ^ 16
to_uint16 (negsuc n) = 2 ^ 16 - 1 - n % 2 ^ 16

pub record Endpoints : Type 0 where
  pub address : String
  pub health_port : ℕ
  pub metrics_port : ℕ

-- What the parsing of `prometheus_endpoint` comes to: `throws` is an exception of `std::stoi`, and
-- `overflows` an addition that leaves the `int`.
pub data Parsed : Type 0 where
  parsed : Endpoints → Parsed
  throws overflows : Parsed

abbrev default_endpoints : Endpoints
default_endpoints = record { address = "0.0.0.0"; health_port = 9091; metrics_port = 9092 }

-- The port before: the health server takes the next one and the metrics server the one after.
unfoldable pub ports_after : String → Option ℤ → Parsed
unfolding to_uint16
ports_after address none = throws
ports_after address (some base_port) =
    if ltb_ℤ (add_ℤ base_port (pos 2)) (pos (2 ^ 31))
    then parsed (record {
      address = address;
      health_port = to_uint16 (add_ℤ base_port (pos 1));
      metrics_port = to_uint16 (add_ℤ base_port (pos 2));
    })
    else overflows

-- Without a colon the defaults stay.
unfoldable pub endpoints_of : Option (String × String) → Parsed
unfolding ports_after
endpoints_of none = parsed default_endpoints
endpoints_of (some (address, port_str)) = ports_after address (stoi port_str)

unfoldable pub parse_endpoint : String → Parsed
unfolding split_at_colon endpoints_of
parse_endpoint prometheus_endpoint = endpoints_of (split_at_colon prometheus_endpoint)

-- The messages of the ingress actor: an atom, or a request as text.
pub data IngressMessage : Type 0 where
  atom : String → IngressMessage
  json_request : String → IngressMessage

-- What the ingress actor prints when it is made and when a message comes; nothing reaches the worker.
unfoldable pub new_ingress : String → String
new_ingress nats_url = "IngressActor initialized with NATS URL: " +ˢ nats_url

unfoldable pub ingress_receive : IngressMessage → List String
ingress_receive (atom name) = []
ingress_receive (json_request text) = ("Ingress received: " +ˢ text) ∷ []

-- The process: its two servers, its worker, and what it has logged and printed.
pub record Process : Type 0 where
  pub health : Server
  pub metrics : Server
  pub worker : Option WorkerActorState
  pub health_status : Option String
  pub lines : List Line
  pub printed : List String

abbrev pub log : Line → Process → Process
log line p = record p { lines = p.lines ++ line ∷ [] }

abbrev starting_line : WorkerConfig → Line
starting_line config = record (plain_line info "Worker starting") {
  context =
      ("cpu_pool_size", int_to_string config.cpu_pool_size)
      ∷ ("gpu_pool_size", int_to_string config.gpu_pool_size)
      ∷ ("io_pool_size", int_to_string config.io_pool_size)
      ∷ ("sandbox_mode", if config.sandbox_mode then "true" else "false")
      ∷ [];
}

abbrev pub new_process : WorkerConfig → Process
new_process config = record {
  health = new_server;
  metrics = new_server;
  worker = none;
  health_status = none;
  lines = starting_line config ∷ [];
  printed = [];
}

-- The part of the `try` block that starts the servers and the actors; the two `Calls` are what the
-- system answers to each server. The lines of the servers and of the worker go to their own modules.
unfoldable pub started : Env → WorkerConfig → Calls → Calls → Process → Process
started env config health_calls metrics_calls p =
    log (plain_line info "Worker CAF runtime is running. Press Enter to exit...") (record p {
      health = start_health_endpoint health_calls p.health;
      metrics = start_metrics_endpoint env metrics_calls p.metrics;
      health_status = set_health_status env "worker" (pos 1);
      worker = some (new_worker config).0;
      printed = p.printed ++ new_ingress config.nats_url ∷ [];
    })

abbrev pub put_metrics : Process → Option Server → Option Process
put_metrics p none = none
put_metrics p (some metrics) = some (record p { metrics = metrics })

abbrev pub put_health : Process → Option Server → Option Process
put_health p none = none
put_health p (some health) = some (record p { health = health })

-- Whether the thread of each server leaves `accept` when its socket is closed.
pub record Wakes : Type 0 where
  pub health : Bool
  pub metrics : Bool

-- The destructor of the observability, at every return; `none` is a join that waits for ever.
unfoldable pub destroyed : Wakes → Process → Option Process
destroyed wakes p = elim (put_health p (stop_endpoint wakes.health p.health)) [
  | none ↦ none
  | some q ↦ put_metrics q (stop_endpoint wakes.metrics q.metrics)
]

-- How a run comes out: undefined arithmetic, a join that waits for ever, or an end.
pub data Ending (A : Type 0) : Type 0 where
  undefined blocked : Ending A
  ended : A → Ending A

abbrev pub fatal_line : String → Line
fatal_line what = record (plain_line Level.error "Worker fatal error") {
  context = ("error", what) ∷ [];
}

-- The `try` block and its handler; `what` is the text of the exception of `std::stoi`.
unfoldable pub run_process : Env → WorkerConfig → String → Calls → Calls → Parsed → Option Process
unfolding started
run_process env config what health_calls metrics_calls (parsed endpoints) = some (
    log (plain_line info "Worker shutting down")
      (started env config health_calls metrics_calls (new_process config)))
run_process env config what health_calls metrics_calls throws =
    some (log (fatal_line what) (new_process config))
run_process env config what health_calls metrics_calls overflows = none

abbrev pub joined : Option Process → Ending Process
joined none = blocked
joined (some p) = ended p

abbrev pub left : Wakes → Option Process → Ending Process
left wakes none = undefined
left wakes (some p) = joined (destroyed wakes p)

-- `caf_main`. Between its last two lines it waits for a key.
unfoldable pub caf_main : Env → WorkerConfig → String → Calls → Calls → Wakes → Ending Process
unfolding parse_endpoint run_process destroyed
caf_main env config what health_calls metrics_calls wakes = left wakes (
    run_process env config what health_calls metrics_calls
      (parse_endpoint config.prometheus_endpoint))

-- What `main` comes to: its exit code, what it has written to `std::cerr`, and the process that it ran.
pub record Exit : Type 0 where
  pub code : ℕ
  pub errors : List String
  pub process : Option Process

-- `main`, over what the command line is parsed to: an error, as text, or a configuration.
abbrev pub exit_after : Ending Process → Ending Exit
exit_after undefined = undefined
exit_after blocked = blocked
exit_after (ended p) = ended (record { code = 0; errors = []; process = some p })

unfoldable pub main : Env → Expected WorkerConfig → String → Calls → Calls → Wakes → Ending Exit
unfolding caf_main
main env (failure err) what health_calls metrics_calls wakes =
    ended
      (record { code = 1; errors = ("Failed to parse arguments: " +ˢ err) ∷ []; process = none })
main env (value config) what health_calls metrics_calls wakes =
    exit_after (caf_main env config what health_calls metrics_calls wakes)
