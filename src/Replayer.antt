-- ===== src/Replayer.antt =====
-- The replayer: simulator/replayer/replayer.go.
pub mod Defs
pub mod Lines
pub mod RoundTrip
mod Tests
