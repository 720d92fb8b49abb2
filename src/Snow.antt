-- ===== src/Snow.antt =====
-- snow: the blocks that consensus verifies, accepts and rejects, and those that the VM finds, parses and builds.
pub mod Blocks
pub mod Steps
pub mod Soundness
pub mod Calls
mod Tests
