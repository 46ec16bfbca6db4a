-- ===== src/Jobs.antt =====
-- The durable job queue: `ResearchJobRow` and the job operations of `ResearchStore`
-- (libs/persistence/src/deepscout_persistence/models.py and store.py), and `JobService`
-- (libs/research/src/deepscout_research/jobs/service.py).
mod Queue
pub mod Service
pub mod Claims
pub mod Takes
pub mod Leases
pub mod History
pub mod Promises
pub mod Enqueue
unfoldable pub use Queue.*
