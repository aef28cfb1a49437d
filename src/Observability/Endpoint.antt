-- ===== src/Observability/Endpoint.antt =====
-- processor/src/observability.cpp: the health and the metrics server. Both are the same code with
-- another path, another body and, for the metrics, a flag.
use beamline_caf.Base.{
  ℕ, ◌+◌, ◌-◌, ◌≡◌, refl, sym, ap, subst, inl, inr, ◌⊎◌, Bool-cases, Bool, true, false, ◌||◌, not,
  All, List, [], ◌∷◌, String, ◌+ˢ◌, contains, to_string, byte_length, Option, none, some,
  if◌then◌else◌, if_ind,
}
use beamline_caf.Flags.{Env, is_observability_metrics_enabled}

-- The answer to one request; `path` is "GET /_health" or "GET /metrics".
abbrev pub answer_200 : String → String → String
answer_200 content_type body =
    "HTTP/1.1 200 OK\r\n"
    +ˢ "Content-Type: "
    +ˢ content_type
    +ˢ "\r\n"
    +ˢ "Content-Length: "
    +ˢ to_string (byte_length body)
    +ˢ "\r\n"
    +ˢ "\r\n"
    +ˢ body

abbrev pub answer_404 : String
answer_404 =
    "HTTP/1.1 404 Not Found\r\n" +ˢ "Content-Type: text/plain\r\n" +ˢ "Content-Length: 13\r\n"
    +ˢ "\r\n" +ˢ "404 Not Found"

abbrev pub answer : String → String → String → String → String
answer path content_type body request =
    if contains request path || contains request (path +ˢ " HTTP")
    then answer_200 content_type body
    else answer_404

-- The answer of the metrics server: empty without the flag.
abbrev pub get_metrics_response : Env → String
get_metrics_response env =
    if is_observability_metrics_enabled env
    then "# Worker Metrics (CP2 Wave 1)\n# Registry not initialized\n"
    else ""

-- The server as the worker sees it, with the sockets that the process holds open and whether the
-- server's thread runs.
pub record Server : Type 0 where
  pub running : Bool
  pub socket_fd : Option ℕ
  pub thread_runs : Bool
  pub open_sockets : ℕ

abbrev pub new_server : Server
new_server = record { running = false; socket_fd = none; thread_runs = false; open_sockets = 0 }

-- What the system calls of a start give: a descriptor or a failure, and whether bind and listen work.
pub record Calls : Type 0 where
  pub socket : Option ℕ
  pub binds : Bool
  pub listens : Bool

-- The start after the checks: an error closes the socket again.
abbrev pub opened : Calls → Option ℕ → Server → Server
opened calls none s = s
opened calls (some fd) s = if not calls.binds then s else if not calls.listens then s else record {
  running = true;
  socket_fd = some fd;
  thread_runs = true;
  open_sockets = s.open_sockets + 1;
}

unfoldable pub start_health_endpoint : Calls → Server → Server
start_health_endpoint calls s = if s.running then s else opened calls calls.socket s

unfoldable pub start_metrics_endpoint : Env → Calls → Server → Server
unfolding start_health_endpoint
start_metrics_endpoint env calls s =
    if not (is_observability_metrics_enabled env) then s else start_health_endpoint calls s

abbrev pub closed : Option ℕ → ℕ → ℕ
closed none n = n
closed (some fd) n = n - 1

-- The stop: the flag is cleared, the socket closed and the thread joined. `wakes` says whether the
-- server's thread leaves `accept` after that: the close need not wake it. `none` is a join that waits for
-- ever.
unfoldable pub stop_endpoint : (wakes : Bool) → Server → Option Server
stop_endpoint wakes s =
    if not s.running
    then some s
    else if not wakes
    then none
    else some (record {
      running = false;
      socket_fd = none;
      thread_runs = false;
      open_sockets = closed s.socket_fd s.open_sockets;
    })

-- A server that runs has one open socket and a thread; one that does not has neither.
abbrev pub IsConsistent : Server → Type 0
IsConsistent s =
    ((s.running ≡ true)
      × (s.thread_runs ≡ true)
      × (s.open_sockets ≡ 1)
      × ((fd : ℕ) × (s.socket_fd ≡ some fd)))
    ⊎ ((s.running ≡ false) × (s.thread_runs ≡ false) × (s.open_sockets ≡ 0) × (s.socket_fd ≡ none))

pub data Command : Type 0 where
  start : Calls → Command
  stop : (wakes : Bool) → Command

abbrev pub IsWoken : Command → Type 0
IsWoken (start calls) = Unit
IsWoken (stop wakes) = wakes ≡ true

unfoldable pub obey : Env → Server → List Command → Option Server
unfolding start_metrics_endpoint stop_endpoint
obey env s [] = some s
obey env s (start calls ∷ cs) = obey env (start_metrics_endpoint env calls s) cs
obey env s (stop wakes ∷ cs) = elim (stop_endpoint wakes s) [ none ↦ none | some t ↦ obey env t cs ]

opened-IsConsistent :
    (calls : Calls) (fd : Option ℕ) (s : Server)
    → s.running ≡ false
    → IsConsistent s
    → IsConsistent (opened calls fd s)
opened-IsConsistent calls none s idle h = h
opened-IsConsistent calls (some fd) s idle (inl (up, _, _, _)) = cc
opened-IsConsistent calls (some fd) s idle (inr h) = elim (Bool-cases calls.binds) [
  | inr e ↦ rw e (inr h)
  | inl e ↦ rw e (elim (Bool-cases calls.listens) [
    | inr l ↦ rw l (inr h)
    | inl l ↦ rw l (inl (refl, refl, ap (λ n. n + 1) h.2, (fd, refl)))
  ])
]

pub start_health-IsConsistent :
    (calls : Calls) (s : Server) → IsConsistent s → IsConsistent (start_health_endpoint calls s)
unfolding start_health_endpoint
start_health-IsConsistent calls s h = elim (Bool-cases s.running) [
  | inl r ↦ subst IsConsistent (sym (ap tested r)) h
  | inr r ↦ subst IsConsistent (sym (ap tested r)) (opened-IsConsistent calls calls.socket s r h)
]
  where
    tested : Bool → Server
    tested b = if b then s else opened calls calls.socket s

pub start_metrics-IsConsistent :
    (env : Env) (calls : Calls) (s : Server)
    → IsConsistent s
    → IsConsistent (start_metrics_endpoint env calls s)
unfolding start_metrics_endpoint
start_metrics-IsConsistent env calls s h =
    if_ind IsConsistent (not (is_observability_metrics_enabled env)) h
      (start_health-IsConsistent calls s h)

-- Stopping a consistent server whose thread wakes gives back everything: no thread and no open socket is
-- left. Stopping one that runs and whose thread does not wake never ends.
pub stop-new_server : (s : Server) → IsConsistent s → stop_endpoint true s ≡ some new_server
unfolding stop_endpoint
stop-new_server s (inl (up, thread, one, (fd, socket))) = rw (up, socket, one) refl
stop-new_server s (inr (down, thread, zero_open, socket)) =
    rw (down, thread, zero_open, socket) refl

pub stop_unwoken :
    (s : Server)
    → IsConsistent s
    → stop_endpoint false s ≡ (if s.running then none else some new_server)
unfolding stop_endpoint
stop_unwoken s (inl (up, thread, one, (fd, socket))) = rw up refl
stop_unwoken s (inr (down, thread, zero_open, socket)) = rw (down, thread, zero_open, socket) refl

pub new_server-IsConsistent : IsConsistent new_server
new_server-IsConsistent = inr (refl, refl, refl, refl)

obey-IsConsistent :
    (env : Env) (s : Server) (cs : List Command)
    → All IsWoken cs
    → IsConsistent s
    → (t : Server) × (obey env s cs ≡ some t) × IsConsistent t
unfolding obey
obey-IsConsistent env s [] woken h = (s, refl, h)
obey-IsConsistent env s (start calls ∷ cs) woken h =
    obey-IsConsistent env (start_metrics_endpoint env calls s) cs woken.1
      (start_metrics-IsConsistent env calls s h)
obey-IsConsistent env s (stop wakes ∷ cs) (wakes_up, woken) h =
    let (t, e, k) = obey-IsConsistent env new_server cs woken new_server-IsConsistent in
    (t, rw (obey, wakes_up, stop-new_server s h) e, k)

-- However often the server is started and stopped, and whichever system calls fail on the way, as long
-- as its thread has woken at each stop: the stop that the destructor makes leaves it as it was before the
-- first start, not running, without a thread and without an open socket, if the thread wakes again;
-- if it does not, that stop never ends, unless the server is not running.
pub stop-obey :
    (env : Env) (cs : List Command)
    → All IsWoken cs
    → (s : Server) × (obey env new_server cs ≡ some s)
      × (stop_endpoint true s ≡ some new_server)
      × (stop_endpoint false s ≡ (if s.running then none else some new_server))
stop-obey env cs woken =
    let (s, e, h) = obey-IsConsistent env new_server cs woken new_server-IsConsistent in
    (s, e, stop-new_server s h, stop_unwoken s h)
