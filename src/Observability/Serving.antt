-- ===== src/Observability/Serving.antt =====
-- processor/src/observability.cpp: the loops of the two servers, health_server_loop and
-- metrics_server_loop, over what the system calls give them.
use beamline_caf.Base.{
  ℕ, suc, ◌-◌, ◌≡◌, refl, sym, ◌∙◌, Bool, true, false, not, List, [], ◌∷◌, ◌++◌, String, Option,
  none, some, arith, if◌then◌else◌, ◌||◌, ◌&&◌, is_some, append-nil, append_assoc,
}
use beamline_caf.Flags.{Env}
use beamline_caf.Observability.Pii.{Json, string, object, no_fields}
use beamline_caf.Observability.Log.{put}
use beamline_caf.Observability.Endpoint.{answer, get_metrics_response}

-- A client: `recv` gives the text of its request, up to 4095 bytes and the first zero, or nothing.
abbrev pub Client : Type 0
Client = Option String

-- One round of the loop: the flag at its test, a client or a failure of `accept`, the flag after a
-- failure, and the time at which an answer is made.
pub record Round : Type 0 where
  pub running : Bool
  pub accepted : Option Client
  pub still_running : Bool
  pub time : String

-- What the loop has done: the texts that it sent, the descriptors of clients that it holds open, and
-- whether it has ended.
pub record Served : Type 0 where
  pub sent : List String
  pub open_clients : ℕ
  pub ended : Bool

abbrev pub nothing_served : Served
nothing_served = record { sent = []; open_clients = 0; ended = false }

-- The rounds before the one in which the loop is left.
unfoldable pub leaves : Round → Bool
leaves r = not r.running || (not (is_some r.accepted) && not r.still_running)

unfoldable pub before_leaving : List Round → List Round
unfolding leaves
before_leaving [] = []
before_leaving (r ∷ rounds) = if leaves r then [] else r ∷ before_leaving rounds

module _ (path content_type : String) (body : String → String) where
  -- A client is answered if it sent something, and closed in any case.
  unfoldable pub serve_client : String → Client → Served → Served
  serve_client time none s = s
  serve_client time (some request) s = record s {
    sent = s.sent ++ answer path content_type (body time) request ∷ [];
  }

  abbrev opened_client : Served → Served
  opened_client s = record s { open_clients = suc s.open_clients }

  abbrev closed_client : Served → Served
  closed_client s = record s { open_clients = s.open_clients - 1 }

  unfoldable pub server_loop : List Round → Served → Served
  unfolding serve_client
  server_loop [] s = s
  server_loop (r ∷ rounds) s =
      let over : Served = record s { ended = true } in
      if not r.running then over else elim r.accepted [
        | none ↦ if r.still_running then server_loop rounds s else over
        | some client ↦
            server_loop rounds (closed_client (serve_client r.time client (opened_client s)))
      ]

  -- The answers that the requests of some rounds ask for.
  unfoldable pub answers : List Round → List String
  answers [] = []
  answers (r ∷ rounds) = elim r.accepted [
    | some (some request) ↦ answer path content_type (body r.time) request ∷ answers rounds
    | some none ↦ answers rounds
    | none ↦ answers rounds
  ]

  abbrev Serves : List Round → Served → Type 0
  Serves rounds s =
      ((server_loop rounds s).sent ≡ s.sent ++ answers (before_leaving rounds))
      × ((server_loop rounds s).open_clients ≡ s.open_clients)

  abbrev round : Bool → Option Client → Bool → String → Round
  round running accepted still_running time = record {
    running = running;
    accepted = accepted;
    still_running = still_running;
    time = time;
  }

  -- One round, by what its system calls give.
  round-Serves :
      (running : Bool) (accepted : Option Client) (still_running : Bool) (time : String)
      (rounds : List Round) (s : Served)
      → ((t : Served) → Serves rounds t)
      → Serves (round running accepted still_running time ∷ rounds) s
  unfolding server_loop before_leaving answers
  round-Serves false accepted still_running time rounds s rest = (sym (append-nil s.sent), refl)
  round-Serves true none false time rounds s rest = (sym (append-nil s.sent), refl)
  round-Serves true none true time rounds s rest = rest s
  round-Serves true (some none) still_running time rounds s rest =
      let (sent, fds) = rest (closed_client (opened_client s)) in (sent, fds ∙ omega arith)
  round-Serves true (some (some request)) still_running time rounds s rest =
      let (sent, fds) = rest (closed_client (serve_client time (some request) (opened_client s))) in
      (
        sent ∙ append_assoc s.sent (answer path content_type (body time) request ∷ []) _,
        fds ∙ omega arith,
      )

  loop-Serves : (rounds : List Round) (s : Served) → Serves rounds s
  unfolding server_loop before_leaving answers
  loop-Serves [] s = (sym (append-nil s.sent), refl)
  loop-Serves (r ∷ rounds) s =
      round-Serves r.running r.accepted r.still_running r.time rounds s (λ t. loop-Serves rounds t)

  -- A loop answers the requests that come before it is left, each once and in order, and holds no
  -- client open afterwards.
  pub server_loop-answers :
      (rounds : List Round)
      → ((server_loop rounds nothing_served).sent ≡ answers (before_leaving rounds))
        × ((server_loop rounds nothing_served).open_clients ≡ 0)
  server_loop-answers rounds = loop-Serves rounds nothing_served

-- The bodies: the health server's is printed by the JSON library.
abbrev pub get_health_response : (Json → String) → String → String
get_health_response dump timestamp =
    dump (object (put "timestamp" (string timestamp) (put "status" (string "healthy") no_fields)))

unfoldable pub health_server_loop : (Json → String) → List Round → Served
health_server_loop dump rounds =
    server_loop "GET /_health" "application/json" (get_health_response dump) rounds nothing_served

unfoldable pub metrics_server_loop : Env → List Round → Served
metrics_server_loop env rounds =
    server_loop "GET /metrics" "text/plain; version=0.0.4" (λ time. get_metrics_response env) rounds
      nothing_served
