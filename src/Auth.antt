-- ===== src/Auth.antt =====
-- gateway/internal/auth.
pub mod Keys
