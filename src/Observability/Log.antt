-- ===== src/Observability/Log.antt =====
-- processor/src/observability.cpp: the lines that the worker logs.
use beamline_caf.Base.{
  Bool, true, false, [], ◌∷◌, String, ◌=ˢ◌, is_blank, Dict, Option, none, some, if◌then◌else◌,
}
use beamline_caf.Core.{BlockContext, empty_context}
use beamline_caf.Observability.Pii.{Json, string, object, Fields, no_fields, field, filter_pii}

-- `obj[key] = value`.
unfoldable pub put : String → Json → Fields → Fields
put key value no_fields = field key value no_fields
put key value (field k v fs) = if k =ˢ key then field k value fs else field k v (put key value fs)

unfoldable pub get : String → Fields → Option Json
get key no_fields = none
get key (field k v fs) = if k =ˢ key then some v else get key fs

-- A correlation id is left out when it is empty.
abbrev pub put_id : String → String → Fields → Fields
put_id key id fs = if is_blank id then fs else put key (string id) fs

abbrev pub is_empty_object : Json → Bool
is_empty_object (object no_fields) = true
is_empty_object _ = false

unfoldable pub put_all : Dict → Fields → Fields
unfolding put
put_all [] fs = fs
put_all ((key, value) ∷ context) fs = put_all context (put key (string value) fs)

-- The worker's id and the fields of the caller, filtered.
unfoldable pub context_object : String → Dict → Json
unfolding put_all filter_pii
context_object worker_id context =
    filter_pii (object (put_all context (put "worker_id" (string worker_id) no_fields)))

-- The fields that stand at the top level.
abbrev pub entry_fields : String → String → String → BlockContext → Fields
entry_fields timestamp level message ids = put_id "trace_id" ids.trace_id (
    put_id "step_id" ids.step_id (
      put_id "flow_id" ids.flow_id (
        put_id "run_id" ids.run_id (
          put_id "tenant_id" ids.tenant_id (
            put "message" (string message) (
              put "component" (string "worker")
                (put "level" (string level) (put "timestamp" (string timestamp) no_fields))))))))

abbrev pub put_unless_empty : String → Json → Fields → Fields
put_unless_empty key obj fs = if is_empty_object obj then fs else put key obj fs

-- `format_json_log`, before it is printed.
unfoldable pub log_fields : String → String → String → String → BlockContext → Dict → Fields
log_fields worker_id timestamp level message ids context =
    put_unless_empty "context" (context_object worker_id context)
      (entry_fields timestamp level message ids)

pub data Level : Type 0 where
  info warn error debug : Level

abbrev pub level_name : Level → String
level_name info = "INFO"
level_name warn = "WARN"
level_name error = "ERROR"
level_name debug = "DEBUG"

pub data Stream : Type 0 where
  cout cerr : Stream

-- `log_info_with_context` and its three siblings: where the line goes, and the line; `dump` is the
-- JSON library's printer.
unfoldable pub log_with_context :
    (Json → String) → String → String → Level → String → BlockContext → Dict → Stream × String
log_with_context dump worker_id timestamp level message ctx context = (
  elim level [ error ↦ cerr | _ ↦ cout ],
  dump (object (log_fields worker_id timestamp (level_name level) message ctx context)),
)

-- A call of one of the four loggers. Those that take the ids one by one get them as a context, whose
-- other fields a line does not show.
pub record Line : Type 0 where
  pub level : Level
  pub message : String
  pub ids : BlockContext
  pub context : Dict

-- What the call writes.
abbrev pub log_line : (Json → String) → String → String → Line → Stream × String
log_line dump worker_id timestamp l =
    log_with_context dump worker_id timestamp l.level l.message l.ids l.context

-- A line without ids and context.
abbrev pub plain_line : Level → String → Line
plain_line level message = record {
  level = level;
  message = message;
  ids = empty_context;
  context = [];
}
