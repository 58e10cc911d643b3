-- ===== src/Examples.antt =====
-- Concrete inputs, with float64 as fixed-point numbers, and the properties of the program there.
mod Budgets
mod Models
mod Tenants
mod Gateway
mod Access
mod Dispatches
mod Requests
mod Streams
mod Adapters
mod Starting
mod Rates
mod Advice
mod Keys
mod Drift
mod Changes
