-- ===== src/Policy.antt =====
-- Package gateway/internal/policy: what to do when a budget is short.
pub mod Engine
