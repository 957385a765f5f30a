-- ===== src/Examples.antt =====
-- Concrete inputs on which the theorems hold: an ESME session, a script with one handler, a table of
-- parameters, requests, a configuration and its environment, and a run.
pub mod Fixtures
mod Requests
mod Rates
mod Scripts
mod Parameters
mod Sending
mod Statuses
mod Replies
mod Receipts
mod Configs
mod Runs
mod Messages
mod Loads
