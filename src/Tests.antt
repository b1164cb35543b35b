-- ===== src/Tests.antt =====
-- Concrete accounts, requests and a small Redis, on which the theorems are applied, and runs.
pub mod Data
pub mod Memory
mod Sessions
mod Administration
mod Limits
mod Prices
mod Keys
mod Accounts
mod Workers
mod Schema
mod Files
mod Services
mod Counters
mod Startup
mod Requests
