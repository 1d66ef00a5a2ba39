-- ===== src/Evidence.antt =====
-- What evidence is measured against.
pub mod Floors
