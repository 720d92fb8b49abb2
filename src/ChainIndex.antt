-- ===== src/ChainIndex.antt =====
-- chainindex/chain_index.go: the accepted blocks that are kept on disk.
pub mod Index
pub mod Entries
pub mod Retention
mod Tests
