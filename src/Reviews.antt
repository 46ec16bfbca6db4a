-- ===== src/Reviews.antt =====
-- Human review of a run: libs/research/src/deepscout_research/hitl/__init__.py, approval.py, and the
-- review operations of libs/persistence/src/deepscout_persistence/store.py.
mod Rows
mod Store
pub mod Create
pub mod Resolve
unfoldable pub use Rows.*
unfoldable pub use Store.*
