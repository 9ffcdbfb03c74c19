-- ===== src/Transaction.antt =====
-- src/transaction: the transaction, its RLP form, signing and sender recovery.
pub mod Types
pub mod Codec
pub mod Signing
pub mod Returns
