-- ===== src/Sources.antt =====
-- The sources layer of packages/core/src/sources: what is read of a repository.
pub mod Order
pub mod Naming
