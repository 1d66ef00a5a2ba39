-- ===== src/Strategic.antt =====
-- The parts of the strategic layer: programs and their lanes, and the store of core/strategic_store.py.
pub mod Lanes
pub mod Decisions
pub mod Messages
pub mod Rows
pub mod DecisionTable
pub mod Tasks
pub mod Claims
pub mod MessageTable
