-- ===== src/Reconciliation.antt =====
-- src/webwire/safety/reconciliation_ledger.py: the durable ledger of terminal reconciliations.
pub mod Record
pub mod History
pub mod Ledger
mod Examples
