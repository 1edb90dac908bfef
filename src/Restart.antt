-- ===== src/Restart.antt =====
-- The restart of the scheduler: simulator/scheduler/scheduler.go and scheduler/config/config.go.
pub mod Defs
pub mod Outcomes
mod Tests
