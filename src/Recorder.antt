-- ===== src/Recorder.antt =====
-- The recorder: simulator/recorder/recorder.go.
pub mod Defs
pub mod Loop
pub mod Log
mod Tests
