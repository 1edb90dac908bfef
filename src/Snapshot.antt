-- ===== src/Snapshot.antt =====
-- Snapshots: simulator/snapshot/snapshot.go and utils.go.
pub mod Defs
pub mod Snap
pub mod Apply
pub mod Convert
pub mod Tasks
pub mod Errors
pub mod RoundTrip
mod Tests
