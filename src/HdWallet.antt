-- ===== src/HdWallet.antt =====
-- src/hdwallet: seeds of the two curves, BIP-32 children, derivation paths and mnemonics.
pub mod Derivation
pub mod Path
pub mod Mnemonic
pub mod Hardened
pub mod Phrases
pub mod Returns
pub mod Decimal
mod Tests
