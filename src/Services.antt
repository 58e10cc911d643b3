-- ===== src/Services.antt =====
-- The services in Python, as far as the gateway shares work with them: the price table in providers,
-- the advisor in advisor, the keys and the budgets in controlplane, and the drift job in reconciliation.
pub mod Pricing
pub mod Advisor
pub mod Keys
pub mod Reconciliation
pub mod Budgets
