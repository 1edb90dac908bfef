-- ===== src/Reset.antt =====
-- The reset service: simulator/reset/reset.go.
pub mod Defs
pub mod Entries
pub mod Restored
mod Tests
