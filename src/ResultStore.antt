-- ===== src/ResultStore.antt =====
-- The result store of the wrapped plugins, simulator/scheduler/plugin/resultstore/store.go.
-- Each method runs under the store's lock from its first line to its return, so it is one step.
-- A pod is given by its namespace and name. `json.Marshal` and `Duration.String` are parameters.
mod Defs
mod Writes
pub mod Annotation
pub mod Fills
pub mod Annotations
pub mod Calls
pub mod Stored
pub mod Nodes
pub mod Safety
pub mod Recorded
pub mod Texts
pub mod Nominations
pub mod Deleted
pub mod Keys
mod Tests
pub use Defs.{Key, Result, Store}
unfoldable pub use Defs.{new, new_key, new_data, with_result}
