-- ===== src/Observability.antt =====
-- processor/src/observability.cpp and ingress/src/ingress_observability_stub.cpp.
pub mod Pii
pub mod Redaction
pub mod Log
pub mod Timestamp
pub mod LogLaws
pub mod Ingress
pub mod Endpoint
pub mod Metrics
pub mod Serving
