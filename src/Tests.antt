-- ===== src/Tests.antt =====
-- Runs of the model at concrete inputs.
mod Transfers
mod Segments
mod Verifications
mod Downloads
mod Receipts
mod Texts
mod Gateways
mod Audits
