-- ===== src/Tests.antt =====
-- Tests: the theorems at concrete inputs.
mod Tables
mod Limits
mod Risks
mod Challenges
mod Gateway
mod Detectors
mod Sessions
mod Accounts
mod Users
mod Bearer
mod Addresses
