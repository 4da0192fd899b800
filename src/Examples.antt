-- ===== src/Examples.antt =====
-- Concrete inputs, runs of the definitions on them, and the theorems applied to them.
pub mod Inputs
mod SearchRuns
mod Samples
mod StoreCalls
mod Verdicts
mod Captured
mod Addresses
mod Restarted
mod Scrapes
mod SignIn
mod Handlers
mod Visits
mod Accounts
mod Proxying
mod Requests
mod Attempts
mod Choices
