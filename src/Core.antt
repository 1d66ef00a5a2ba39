-- ===== src/Core.antt =====
-- The parts of src/quaestor/core.
pub mod Domain
pub mod Proc
pub mod Lease
pub mod Reconcile
pub mod Cancellation
pub mod OwnerChannel
pub mod Authority
pub mod Actors
pub mod Autonomy
pub mod Concurrency
pub mod Store
pub mod Review
pub mod Acceptance
pub mod Retention
pub mod Credentials
