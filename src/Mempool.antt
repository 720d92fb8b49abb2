-- ===== src/Mempool.antt =====
-- internal/mempool, internal/list and internal/eheap: the items that wait for a block.
pub mod Queue
pub mod Pool
pub mod Weights
pub mod Invariant
pub mod Adding
pub mod Eviction
pub mod Operations
pub mod Streaming
pub mod Top
pub mod Runs
pub mod Restoring
mod Tests
