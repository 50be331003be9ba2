-- ===== src/Reconcile.antt =====
-- vocab/reconcile.py: T9 reconciliation.
pub mod Runtime
pub mod Input
pub mod Gates
pub mod Plans
pub mod Decide
pub mod Materialize
pub mod Observe
pub mod Recover
pub mod Revlog
