-- ===== src/Tests.antt =====
-- Runs of the model on concrete inputs.
mod Fixtures
mod Memory
mod Cloud
mod Refunds
mod Loops
mod Store
mod Attempt
mod Reports
mod Requests
mod Durable
mod Settings
mod Commands
