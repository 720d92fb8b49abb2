-- ===== src/Balance.antt =====
-- state/balance/balance.go: the balances of addresses, one uint64 at a key each.
pub mod Handler
pub mod Accounts
mod Tests
