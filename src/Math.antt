-- ===== src/Math.antt =====
-- uint64 arithmetic: avalanchego's checked operations as an interface, and internal/math.
pub mod Checked
pub mod Operator
mod Tests
