-- ===== src/Reflector.antt =====
-- The store reflector: simulator/scheduler/storereflector/storereflector.go and
-- simulator/util/retry.go.
pub mod Defs
pub mod History
pub mod Handler
pub mod Trimmed
pub mod Collected
pub mod Attempts
pub mod Written
mod Tests
