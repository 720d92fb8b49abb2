-- ===== src/Chain.antt =====
-- chain: transactions, the checks and the execution of one, and of the blocks that hold them.
pub mod Program
pub mod Timestamp
pub mod Transaction
pub mod Units
pub mod Admission
pub mod Declared
pub mod Execution
pub mod Processor
pub mod Builder
pub mod Build
pub mod Fetching
pub mod Replaying
pub mod PreExecutor
pub mod Blocks
pub mod Consumption
pub mod Context
pub mod Packing
pub mod Packed
pub mod Built
pub mod Restored
mod Tests
mod BlockTests
mod BuildTests
mod PendingTests
