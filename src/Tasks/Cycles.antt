-- ===== src/Tasks/Cycles.antt =====
-- What `TaskGraph.validate_dependencies` decides: the dependency relation of a task graph, and the
-- order that the depth-first search of `_detect_cycles` builds.
mod Relation
mod Search
pub mod Validate
pub mod Accepts
pub use Relation.*
pub use Search.*
