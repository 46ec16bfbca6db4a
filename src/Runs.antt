-- ===== src/Runs.antt =====
-- libs/persistence/src/deepscout_persistence/models.py and store.py: the rows of runs and the
-- operations of `ResearchStore` on them.
mod Rows
pub mod Usage
pub mod TaskRows
pub mod Status
pub use Rows.*
