-- ===== src/Journal.antt =====
-- vocab/reconcile.py: the STATE journal of PREPARE, COMMIT and ABORT records, the transactions
-- that it makes up, and the lifecycle chain of each channel that its commits form.
pub mod Records
pub mod Transactions
pub mod Provenance
pub mod Reading
pub mod History
