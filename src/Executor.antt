-- ===== src/Executor.antt =====
-- internal/executor: the tasks of a block, run at once where their keys allow it.
pub mod Count
pub mod Tasks
pub mod Steps
pub mod WellFormed
pub mod Enqueue
pub mod Work
pub mod Order
pub mod Visit
pub mod Run
pub mod Looked
pub mod Reached
pub mod Safety
pub mod Measure
pub mod Progress
mod Tests
