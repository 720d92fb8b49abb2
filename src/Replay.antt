-- ===== src/Replay.antt =====
-- internal/emap and internal/validitywindow: what keeps a transaction from being included twice.
pub mod Distinct
pub mod Emap
pub mod Tracking
pub mod Window
pub mod Walk
pub mod Fresh
pub mod Accepted
mod Tests
