-- ===== src/PowerAware.antt =====
-- The power-aware score plugin, simulator/scheduler/plugin/powertopsis/plugin.go.
-- float64 and its functions are the parameter `Float`; the order of Go's map iteration and the
-- framework's cycle state are parameters too.
pub mod Float
pub mod Criteria
pub mod Keys
pub mod NotANumber
pub mod Dominance
mod Samples
mod Tests
pub mod Plugin
pub mod Picks
pub mod Extremes
pub mod Scores
