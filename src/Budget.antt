-- ===== src/Budget.antt =====
-- Package gateway/internal/budget: token and dollar buckets in Redis, and their configuration.
pub mod Types
pub mod Script
pub mod ConfigCache
pub mod Rate
pub mod Enforcer
