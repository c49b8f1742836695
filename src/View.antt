-- ===== src/View.antt =====
-- What the readers derive of a run: packages/core/src/view-model.
pub mod Readiness
