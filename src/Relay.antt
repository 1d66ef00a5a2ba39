-- ===== src/Relay.antt =====
-- The parts of src/quaestor/relay.
pub mod Ledger
pub mod Delivery
pub mod Effects
pub mod Holds
pub mod Row
pub mod Corroborate
pub mod Receive
pub mod Completion
pub mod Repetition
