-- ===== src/WrappedPlugin.antt =====
-- The wrapper that records what a scheduler plugin does,
-- simulator/scheduler/plugin/wrappedplugin.go. The framework's types and the original plugin are
-- parameters; an extender acts on the environment and adds custom results.
pub mod Framework
pub mod Action
pub mod Plugin
pub mod Methods
pub mod Safety
pub mod Requests
pub mod Records
pub mod Normalized
pub mod Nominated
mod Tests
