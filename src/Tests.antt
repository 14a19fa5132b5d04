-- ===== src/Tests.antt =====
-- The theorems applied to concrete inputs.
pub mod Fixtures
mod Responses
mod Orders
mod Names
mod Merges
mod Syncs
mod Auths
mod Controllers
mod Fleets
mod Webs
mod Commands
