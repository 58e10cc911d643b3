-- ===== src/Observability.antt =====
-- gateway/internal/observability.
pub mod Logger
pub mod Metrics
