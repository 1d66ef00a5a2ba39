-- ===== src/Examples.antt =====
-- Examples: each theorem at a concrete input.
mod Store
mod Runs
mod Authority
mod Relay
mod Acceptance
mod Retention
mod Strategic
mod Messages
mod Evidence
mod Completion
mod Credentials
mod Repetition
