-- ===== src/Budget.antt =====
-- libs/core/src/deepscout_core/domain/budget.py: the limits of a run, what it has used, and the
-- ledger that enforces them.
mod Limits
mod Ledger
pub mod Bounds
pub mod Construction
unfoldable pub use Limits.*
unfoldable pub use Ledger.*
