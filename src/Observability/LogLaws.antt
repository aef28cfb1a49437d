-- ===== src/Observability/LogLaws.antt =====
-- What stands in a line of the log.
use beamline_caf.Base.{
  ◌≡◌, refl, ◌∙◌, inl, inr, false, Bool-cases, arith, if◌then◌else◌, String, ◌=ˢ◌, is_blank, Dict,
  Option, none, some, eq_iff, eq_refl, same_codes, has_infix, to_lower,
}
use beamline_caf.Core.{BlockContext}
use beamline_caf.Observability.Pii.{Json, string, object, Fields, no_fields, field, is_pii_field}
use beamline_caf.Observability.Redaction.{IsClean, HasCleanFields, filter_pii-IsClean}
use beamline_caf.Observability.Log.{
  put, put_all, get, put_id, put_unless_empty, entry_fields, is_empty_object, context_object,
  log_fields,
}

put-HasCleanFields :
    (key : String) (v : Json) (fs : Fields)
    → is_pii_field key ≡ false
    → IsClean v
    → HasCleanFields fs
    → HasCleanFields (put key v fs)
unfolding put IsClean
put-HasCleanFields key v no_fields plain clean h = ((λ e. cc), (λ _. clean), tt)
put-HasCleanFields key v (field k w fs) plain clean (secret, open_field, h) =
    elim (Bool-cases (k =ˢ key)) [
      | inl e ↦ rw e (plain_field ((eq_iff k key).0 e))
      | inr e ↦ rw e (secret, open_field, put-HasCleanFields key v fs plain clean h)
    ]
  where
    plain_field : k ≡ key → HasCleanFields (field k v fs)
    plain_field e = ((λ s. cc), (λ _. clean), h)

put_id-HasCleanFields :
    (key id : String) (fs : Fields)
    → is_pii_field key ≡ false
    → HasCleanFields fs
    → HasCleanFields (put_id key id fs)
unfolding IsClean
put_id-HasCleanFields key id fs plain h = elim (Bool-cases (is_blank id)) [
  | inl e ↦ rw e h
  | inr e ↦ rw e (put-HasCleanFields key (string id) fs plain tt h)
]

get-put :
    (written asked : String) (value : Json) (fs : Fields)
    → get asked (put written value fs) ≡ (if written =ˢ asked then some value else get asked fs)
unfolding get put
get-put written asked value no_fields = refl
get-put written asked value (field name held fs) = ground (
  arith,
  get-put written asked value fs,
  eq_iff name written,
  eq_iff name asked,
  eq_iff written asked,
)

abbrev IsPlain : String → Type 0
IsPlain key = is_pii_field key ≡ false

-- The names that the worker itself logs are no secret names.
log_keys :
    IsPlain "timestamp"
    × IsPlain "level"
    × IsPlain "component"
    × IsPlain "message"
    × IsPlain "context"
    × IsPlain "tenant_id"
    × IsPlain "run_id"
    × IsPlain "flow_id"
    × IsPlain "step_id"
    × IsPlain "trace_id"
unfolding is_pii_field same_codes has_infix to_lower
log_keys = (refl, refl, refl, refl, refl, refl, refl, refl, refl, refl)

put_unless_empty-HasCleanFields :
    (key : String) (v : Json) (fs : Fields)
    → IsPlain key
    → IsClean v
    → HasCleanFields fs
    → HasCleanFields (put_unless_empty key v fs)
put_unless_empty-HasCleanFields key v fs plain clean h = elim (Bool-cases (is_empty_object v)) [
  | inl e ↦ rw e h
  | inr e ↦ rw e (put-HasCleanFields key v fs plain clean h)
]

context_object-IsClean :
    (worker_id : String) (context : Dict) → IsClean (context_object worker_id context)
unfolding context_object
context_object-IsClean worker_id context =
    filter_pii-IsClean (object (put_all context (put "worker_id" (string worker_id) no_fields)))

-- No field of a logged line that has a secret name holds anything but "[REDACTED]", at any depth and
-- whatever the caller passes as context.
pub log_fields-IsClean :
    (worker_id timestamp level message : String) (ids : BlockContext) (context : Dict)
    → IsClean (object (log_fields worker_id timestamp level message ids context))
unfolding log_fields IsClean
log_fields-IsClean worker_id timestamp level message ids context =
    let (
      p_time, p_level, p_component, p_message, p_context, p_tenant, p_run, p_flow, p_step, p_trace,
    ) =
      log_keys in
    put_unless_empty-HasCleanFields "context" _ _ p_context
      (context_object-IsClean worker_id context)
      (put_id-HasCleanFields "trace_id" ids.trace_id _ p_trace (
        put_id-HasCleanFields "step_id" ids.step_id _ p_step (
          put_id-HasCleanFields "flow_id" ids.flow_id _ p_flow (
            put_id-HasCleanFields "run_id" ids.run_id _ p_run (
              put_id-HasCleanFields "tenant_id" ids.tenant_id _ p_tenant (
                put-HasCleanFields "message" (string message) _ p_message tt (
                  put-HasCleanFields "component" (string "worker") _ p_component tt (
                    put-HasCleanFields "level" (string level) _ p_level tt (
                      put-HasCleanFields "timestamp" (string timestamp) no_fields p_time tt
                        tt)))))))))

get-put_id :
    (key j id : String) (fs : Fields)
    → get j (put_id key id fs)
      ≡ (if is_blank id then get j fs else if key =ˢ j then some (string id) else get j fs)
get-put_id key j id fs = elim (Bool-cases (is_blank id)) [
  | inl e ↦ rw e refl
  | inr e ↦ rw e (get-put key j (string id) fs)
]

get-put_unless_empty :
    (key j : String) (v : Json) (fs : Fields)
    → (key =ˢ j) ≡ false
    → get j (put_unless_empty key v fs) ≡ get j fs
get-put_unless_empty key j v fs other = elim (Bool-cases (is_empty_object v)) [
  | inl e ↦ rw e refl
  | inr e ↦ rw e (get-put key j v fs ∙ rw other refl)
]

get-other_id :
    (key j id : String) (fs : Fields) → (key =ˢ j) ≡ false → get j (put_id key id fs) ≡ get j fs
get-other_id key j id fs other = elim (Bool-cases (is_blank id)) [
  | inl e ↦ rw e refl
  | inr e ↦ rw e (get-put key j (string id) fs ∙ rw other refl)
]

get-own_id :
    (key id : String) (fs : Fields)
    → get key fs ≡ none
    → get key (put_id key id fs) ≡ (if is_blank id then none else some (string id))
get-own_id key id fs absent = elim (Bool-cases (is_blank id)) [
  | inl e ↦ rw e absent
  | inr e ↦ rw e (get-put key key (string id) fs ∙ rw (eq_refl key) refl)
]

module _ (timestamp level message : String) (ids : BlockContext) where
  abbrev required : Fields
  required = put "message" (string message) (
      put "component" (string "worker")
        (put "level" (string level) (put "timestamp" (string timestamp) no_fields)))

  abbrev upto_tenant : Fields
  upto_tenant = put_id "tenant_id" ids.tenant_id required

  abbrev upto_run : Fields
  upto_run = put_id "run_id" ids.run_id upto_tenant

  abbrev upto_flow : Fields
  upto_flow = put_id "flow_id" ids.flow_id upto_run

  abbrev upto_step : Fields
  upto_step = put_id "step_id" ids.step_id upto_flow

  -- A field with none of the five ids' names is where it was before the ids were added.
  get-entry_fields :
      (j : String)
      → ("trace_id" =ˢ j) ≡ false
      → ("step_id" =ˢ j) ≡ false
      → ("flow_id" =ˢ j) ≡ false
      → ("run_id" =ˢ j) ≡ false
      → ("tenant_id" =ˢ j) ≡ false
      → get j (entry_fields timestamp level message ids) ≡ get j required
  get-entry_fields j no_trace no_step no_flow no_run no_tenant =
      get-other_id "trace_id" j ids.trace_id upto_step no_trace
      ∙ get-other_id "step_id" j ids.step_id upto_flow no_step
      ∙ get-other_id "flow_id" j ids.flow_id upto_run no_flow
      ∙ get-other_id "run_id" j ids.run_id upto_tenant no_run
      ∙ get-other_id "tenant_id" j ids.tenant_id required no_tenant

  abbrev expected : String → Option Json
  expected id = if is_blank id then none else some (string id)

  get-required :
      (get "message" required ≡ some (string message))
      × (get "level" required ≡ some (string level))
      × (get "tenant_id" required ≡ none)
      × (get "run_id" required ≡ none)
      × (get "flow_id" required ≡ none)
      × (get "step_id" required ≡ none)
      × (get "trace_id" required ≡ none)
  unfolding get put
  get-required = (refl, refl, refl, refl, refl, refl, refl)

  get_tenant : get "tenant_id" (entry_fields timestamp level message ids) ≡ expected ids.tenant_id
  get_tenant =
      get-other_id "trace_id" "tenant_id" ids.trace_id upto_step refl
      ∙ get-other_id "step_id" "tenant_id" ids.step_id upto_flow refl
      ∙ get-other_id "flow_id" "tenant_id" ids.flow_id upto_run refl
      ∙ get-other_id "run_id" "tenant_id" ids.run_id upto_tenant refl
      ∙ get-own_id "tenant_id" ids.tenant_id required (get-required.2)

  get_run : get "run_id" (entry_fields timestamp level message ids) ≡ expected ids.run_id
  get_run =
      get-other_id "trace_id" "run_id" ids.trace_id upto_step refl
      ∙ get-other_id "step_id" "run_id" ids.step_id upto_flow refl
      ∙ get-other_id "flow_id" "run_id" ids.flow_id upto_run refl
      ∙ get-own_id "run_id" ids.run_id upto_tenant
          (get-other_id "tenant_id" "run_id" ids.tenant_id required refl ∙ get-required.3)

  get_flow : get "flow_id" (entry_fields timestamp level message ids) ≡ expected ids.flow_id
  get_flow =
      get-other_id "trace_id" "flow_id" ids.trace_id upto_step refl
      ∙ get-other_id "step_id" "flow_id" ids.step_id upto_flow refl
      ∙ get-own_id "flow_id" ids.flow_id upto_run (
          get-other_id "run_id" "flow_id" ids.run_id upto_tenant refl
          ∙ get-other_id "tenant_id" "flow_id" ids.tenant_id required refl
          ∙ get-required.4)

  get_step : get "step_id" (entry_fields timestamp level message ids) ≡ expected ids.step_id
  get_step =
      get-other_id "trace_id" "step_id" ids.trace_id upto_step refl
      ∙ get-own_id "step_id" ids.step_id upto_flow (
          get-other_id "flow_id" "step_id" ids.flow_id upto_run refl
          ∙ get-other_id "run_id" "step_id" ids.run_id upto_tenant refl
          ∙ get-other_id "tenant_id" "step_id" ids.tenant_id required refl
          ∙ get-required.5)

  get_trace : get "trace_id" (entry_fields timestamp level message ids) ≡ expected ids.trace_id
  get_trace = get-own_id "trace_id" ids.trace_id upto_step (
      get-other_id "step_id" "trace_id" ids.step_id upto_flow refl
      ∙ get-other_id "flow_id" "trace_id" ids.flow_id upto_run refl
      ∙ get-other_id "run_id" "trace_id" ids.run_id upto_tenant refl
      ∙ get-other_id "tenant_id" "trace_id" ids.tenant_id required refl
      ∙ get-required.6)

-- The message, the level, and exactly those correlation ids that are not empty.
abbrev pub HasIds : String → String → BlockContext → Fields → Type 0
HasIds level message ids line =
    (get "message" line ≡ some (string message))
    × (get "level" line ≡ some (string level))
    × (get "tenant_id" line
        ≡ (if is_blank ids.tenant_id then none else some (string ids.tenant_id)))
    × (get "run_id" line ≡ (if is_blank ids.run_id then none else some (string ids.run_id)))
    × (get "flow_id" line ≡ (if is_blank ids.flow_id then none else some (string ids.flow_id)))
    × (get "step_id" line ≡ (if is_blank ids.step_id then none else some (string ids.step_id)))
    × (get "trace_id" line ≡ (if is_blank ids.trace_id then none else some (string ids.trace_id)))

-- A logged line carries its message, its level, and exactly those correlation ids that are not empty.
pub log_fields-ids :
    (worker_id timestamp level message : String) (ids : BlockContext) (context : Dict)
    → HasIds level message ids (log_fields worker_id timestamp level message ids context)
log_fields-ids worker_id timestamp level message ids context =
    let at : (j : String)
        → ("context" =ˢ j) ≡ false
        → get j (log_fields worker_id timestamp level message ids context)
          ≡ get j (entry_fields timestamp level message ids) =
      λ j other.
        unfold log_fields in
        get-put_unless_empty "context" j (context_object worker_id context)
          (entry_fields timestamp level message ids) other in
    (
      at "message" refl
          ∙ get-entry_fields timestamp level message ids "message" refl refl refl refl refl
          ∙ (get-required timestamp level message ids).0,
      at "level" refl
          ∙ get-entry_fields timestamp level message ids "level" refl refl refl refl refl
          ∙ (get-required timestamp level message ids).1,
      at "tenant_id" refl ∙ get_tenant timestamp level message ids,
      at "run_id" refl ∙ get_run timestamp level message ids,
      at "flow_id" refl ∙ get_flow timestamp level message ids,
      at "step_id" refl ∙ get_step timestamp level message ids,
      at "trace_id" refl ∙ get_trace timestamp level message ids,
    )
