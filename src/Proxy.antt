-- ===== src/Proxy.antt =====
-- gateway/internal/proxy.
pub mod Router
pub mod SpendWriter
pub mod Requests
pub mod Replies
pub mod Finish
pub mod Sse
pub mod Dispatch
pub mod Advisor
pub mod Pressure
pub mod Access
pub mod Handler
