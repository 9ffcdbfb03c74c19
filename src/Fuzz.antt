-- ===== src/Fuzz.antt =====
-- fuzz/fuzz_targets: each target is a function of its input that ends in `ok tt`, or panics where an
-- assertion of the target or the library does.
pub mod CompositeSigVerify
pub mod TxDecode
pub mod PubkeyParse
pub mod TxSignRecover
pub mod SignatureHash
pub mod MnemonicSeed
