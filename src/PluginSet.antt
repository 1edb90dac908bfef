-- ===== src/PluginSet.antt =====
-- The plugin sets of a scheduler configuration and their conversion for the simulator,
-- simulator/scheduler/plugin/plugins.go. `InTreeMultiPointPluginSet` and
-- the registries are parameters.
pub mod Trim
pub mod Defs
pub mod Merge
pub mod Weights
pub mod Converted
pub mod Factories
mod Tests
