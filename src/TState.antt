-- ===== src/TState.antt =====
-- state/tstate: a block's changes, and a view of them in which one transaction executes.
-- A view reads its parent and the storage; both are taken not to change while it is in use, which
-- the executor's ordering of conflicting transactions provides.
pub mod View
pub mod WellFormed
pub mod Undo
pub mod Session
pub mod Reads
mod Tests
