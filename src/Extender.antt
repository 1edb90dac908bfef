-- ===== src/Extender.antt =====
-- The scheduler extenders: simulator/scheduler/extender (service.go, extender.go,
-- resultstore/resultstore.go, annotation/annotation.go).
pub mod Store
pub mod Client
pub mod Service
pub mod Config
pub mod Recorded
mod Tests
