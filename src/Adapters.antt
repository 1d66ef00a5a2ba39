-- ===== src/Adapters.antt =====
-- What the control plane asks of its adapters.
pub mod Assurance
