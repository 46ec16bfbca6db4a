-- ===== src/Tasks.antt =====
-- The task graph of a run and what schedules it.
mod Graph
pub mod Cycles
pub mod Ready
pub mod Gate
pub mod Termination
pub mod Allocation
pub mod Repair
unfoldable pub use Graph.*
