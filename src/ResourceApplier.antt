-- ===== src/ResourceApplier.antt =====
-- The resource applier: simulator/resourceapplier/resourceapplier.go and resource.go.
pub mod Library
pub mod Functions
pub mod Resource
pub mod Service
pub mod Registered
pub mod Pods
mod Tests
