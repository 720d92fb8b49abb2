-- ===== src/Fees.antt =====
-- fees and internal/fees: what a transaction uses in five dimensions, and what that costs.
pub mod Dimensions
pub mod Window
pub mod Price
pub mod Manager
mod Tests
