-- ===== src/WrappedPlugin/Methods.antt =====
-- The methods of a wrapped plugin. Each runs the extender before the original plugin and the
-- extender after it, and records the original's result in the store. A method `m_by` takes the
-- original plugin's interface, nil or not, which `m` reads from the wrapped plugin.
pub mod Guards
pub mod Filtering
pub mod Scoring
pub mod Binding
pub mod Safety
