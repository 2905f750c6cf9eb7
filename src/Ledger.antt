-- ===== src/Ledger.antt =====
-- The transaction processor of the CCF ledger (ledgers/ccf/transaction_processor).
pub mod Records
pub mod Host
pub mod Reply
pub mod Tables
pub mod Signatures
pub mod Attestation
pub mod Signing
pub mod Enclaves
pub mod Contracts
pub mod Updates
pub mod Queries
pub mod View
pub mod Steps
