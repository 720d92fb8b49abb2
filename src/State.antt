-- ===== src/State.antt =====
-- state/keys.go: permissions on state keys, and the scopes made of them.
pub mod Permissions
pub mod Scope
mod Tests
