-- ===== src/Core/Store.antt =====
-- core/store.py: the durable rows of dispatches, attempts, leases, owner grants and events, and the
-- operations on them. A table is the list of its rows in the order of insertion.
-- Each operation is one `BEGIN IMMEDIATE` transaction or one statement, so it is one step; an
-- exception inside a transaction rolls it back. The clock's reading and the fresh ids are arguments.
-- JSON columns that no operation reads (event details, identity_json) are left out.
pub mod Rows
pub mod Transition
pub mod Admit
pub mod Leasing
pub mod Grants
pub mod History
