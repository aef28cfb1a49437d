-- ===== src/Observability/Ingress.antt =====
-- ingress/src/ingress_observability_stub.cpp: the ingress' adapter for traces and logs. The calls
-- whose bodies are empty in the source have no model.
use beamline_caf.Base.{
  ◌≡◌, refl, ap, ◌∙◌, arith, Bool, true, List, [], ◌∷◌, any, String, codes, same_codes, Dict,
  lookup, insert, lookup-insert, or_else, if◌then◌else◌,
}
use beamline_caf.Observability.Pii
use beamline_caf.Observability.Pii.{pii_fields, lower}

pub record Span : Type 0 where
  pub trace_id : String
  pub span_id : String
  pub name : String
  pub attributes : Dict

unfoldable pub start_span : String → Dict → Span
start_span name attributes = record {
  trace_id = "";
  span_id = "";
  name = name;
  attributes = attributes;
}

unfoldable pub extract_trace_context : Dict → String
extract_trace_context headers = or_else (lookup "trace_id" headers) ""

unfoldable pub inject_trace_context : Span → Dict
inject_trace_context span = insert "span_id" span.span_id (insert "trace_id" span.trace_id [])

unfoldable pub is_pii_field : String → Bool
is_pii_field field = any (λ p. same_codes (lower field) (codes p)) pii_fields

-- The loop of `sanitize_context`; the method then returns "" all the same.
unfoldable pub sanitized : Dict → Dict
unfolding is_pii_field
sanitized [] = []
sanitized ((key, value) ∷ context) =
    insert key (if is_pii_field key then "[REDACTED]" else value) (sanitized context)

unfoldable pub sanitize_context : Dict → String
sanitize_context context = ""

-- The trace id that is injected into the headers is the one that is extracted from them.
pub extract-inject :
    (span : Span) → extract_trace_context (inject_trace_context span) ≡ span.trace_id
unfolding extract_trace_context inject_trace_context
extract-inject span =
    ap (λ o. or_else o "")
      (lookup-insert "span_id" "trace_id" span.span_id (insert "trace_id" span.trace_id [])
        ∙ lookup-insert "trace_id" "trace_id" span.trace_id [])

-- What holds of some element under one test holds under a wider one.
any_mono :
    (p q : String → Bool)
    → ((x : String) → p x ≡ true → q x ≡ true)
    → (l : List String) → any p l ≡ true
    → any q l ≡ true
any_mono p q h [] e = e
any_mono p q h (x ∷ l) e = ground (arith, h x, any_mono p q h l)

-- Every field that the ingress redacts the worker redacts too.
pub is_pii_field_wider :
    (field : String) → is_pii_field field ≡ true → Pii.is_pii_field field ≡ true
unfolding is_pii_field Pii.is_pii_field
is_pii_field_wider field h =
    any_mono (λ p. same_codes (lower field) (codes p)) (Pii.matches (lower field))
      (λ p e. rw e refl) pii_fields h
