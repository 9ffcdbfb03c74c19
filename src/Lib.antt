-- ===== src/Lib.antt =====
-- Verification of the BlackChain crypto library (Rust, src/): composite keys and signatures of
-- ML-DSA-87, ECDSA P-521 and Ed448, the transaction that they sign, and the HD wallet.
--
-- The parts, from the bottom up:
-- - Base: tests on numbers, byte strings (lists of numbers) with the slices of the source and their
--   panics, results that are a value, an error or a panic, and the methods of `str` that the source calls.
-- - Error models src/error.rs; Sign models the options and the interfaces of src/sign.rs as records.
-- - Crates is the code that the library calls and does not contain (hashes, ml_dsa, p521, ed448_rust,
--   ed448_goldilocks, bip39, bip32, alloy_rlp): records of functions, an argument of every model.
--   Crates.Laws states what is documented of these crates (sizes, inverse encodings, that a signature
--   verifies, the group laws, canonical RLP items); the theorems that need it take it as a hypothesis.
--   Crates.Toy has small functions that meet every law, so that the hypotheses can hold.
-- - Dilithium models src/dilithium/mod.rs: keys are seeds of 32 bytes and their expansion.
-- - P521 models src/mdecc/p521.rs: low-S signatures, and the search for a scalar over the counters
--   0 to 255, which recurses on the rounds that are left; 256 rounds are the source's loop.
-- - Ed448 models src/mdecc/ed448.rs: Ed448.Point the canonical points, Ed448 the two paths of
--   verification, signing and keys. A loop over bytes recurses on the list or on the index.
-- - HdWallet models src/hdwallet: phrases, hardened paths, child seeds, curve seeds.
-- - Crypto models src/crypto.rs: Crypto.PublicKey and Crypto.PrivateKey hold the operations; Crypto.Keys
--   says what `generate` makes, Crypto.Encoding which bytes parse, Crypto.Checks which composites verify.
-- - Transaction models src/transaction: Types the fields with the ranges of their Rust types, Codec the
--   RLP form, Signing the hash, signing and recovery.
-- - Api models src/api.rs (Api.Creation says which wallet comes of the entropy), Wasm src/wasm.rs over
--   it, with serde_json and hex as parameters.
-- - Fuzz models the targets in fuzz/fuzz_targets as functions that panic where the target does.
-- - Attacks models src/attack_vectors.rs: the inputs of an attacker, and that the library refuses them.
-- - Programs models src/bin/demo.rs (Demo), src/bin/low_level_demo.rs, and the trial programs
--   src/bin/test_*.rs (Trials), less what they print; a printed verdict is part of the result.
-- - Examples runs the code on small inputs.
--
-- The three backends implement the `Scheme` trait of src/sign.rs: Dilithium.Scheme, P521.Scheme and
-- Ed448.Scheme are records of its type, with the functions of `TypedScheme` beside them. Sign.Contract
-- states what such a scheme does for clients that hold it by its interface alone. It follows the
-- documentation of the traits but for one point: verification with options that are not supported or a
-- foreign key is false in the code, where the documentation lists a panic. Base.Returns has a rule for
-- each way to build code that does not panic, which `search` applies.
--
-- A function that mutates its argument returns the new value: `sign_transaction` the transaction,
-- `pack` and `sign_to` the buffer. Randomness (the P-521 nonce, seeds) is an argument. A panic is the
-- third form of `Result`. Message texts are lists of pieces; the Display of a crate's error is a parameter.
--
-- What an attack must break is a hypothesis of its theorem: that Keccak-256 does not collide on two
-- transactions (Transaction.Signing.Commitment), that no ML-DSA signature verifies for two messages or
-- under two keys (Transaction.Signing.Binding).
--
-- Not modelled: zeroizing of memory and Debug output, which no result depends on; the benchmarks, which
-- measure; and the tests in tests and beside the code, but for those of src/transaction/signing.rs
-- (Transaction.Signing.Cases) and some of src/api.rs (Api.Cases) and of src/dilithium/mod.rs
-- (Dilithium.Scheme.Cases), which are functions here. The method `scheme` of a key, which leads back to
-- the scheme, is left out of its record.
pub mod Base
pub mod Error
pub mod Crates
pub mod Sign
pub mod Dilithium
pub mod P521
pub mod Ed448
pub mod HdWallet
pub mod Crypto
pub mod Transaction
pub mod Api
pub mod Wasm
pub mod Fuzz
pub mod Programs
pub mod Attacks
pub mod Examples
