-- ===== src/Ledger.antt =====
-- The ledger of the gateway (internal/ledger).
pub mod State
pub mod Receipt
pub mod Reserve
pub mod Settle
pub mod Control
pub mod Prepare
pub mod Admission
pub mod Write
pub mod Tables
pub mod Accounts
