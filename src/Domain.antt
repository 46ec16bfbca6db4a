-- ===== src/Domain.antt =====
-- libs/core/src/deepscout_core/domain: status taxonomies and the rules on them.
pub mod Enums
pub mod Schemas
pub mod Invariants
