-- ===== src/Watcher.antt =====
-- The event proxy of the resource watcher: simulator/resourcewatcher/eventproxy.go.
pub mod Defs
pub mod Watched
mod Tests
