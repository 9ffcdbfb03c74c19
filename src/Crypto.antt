-- ===== src/Crypto.antt =====
-- src/crypto.rs: the composite keys of three algorithms, and composite signatures of messages.
pub mod PublicKey
pub mod PrivateKey
pub mod Keys
pub mod Encoding
pub mod Checks
pub mod RoundTrip
pub mod Returns
