-- ===== src/Crypto/Returns.antt =====
-- Reading composite keys and verifying composite signatures gives a value or an error and never
-- panics (src/crypto.rs, src/dilithium/mod.rs, src/mdecc).
use blackchain_crypto_lib_ru.Base.{
  ◌==◌, true, Bool-cases, ==_iff, inl, inr, Bytes, arith, length, slice_inside,
}
use blackchain_crypto_lib_ru.Base.Returns.{Returns, Returns-err, returns_rules}
use blackchain_crypto_lib_ru.Crates.{MlDsa, P521Ecdsa, Crates}
use blackchain_crypto_lib_ru.Crypto.Checks.{checks, checks_sized}
use blackchain_crypto_lib_ru.Crypto.PublicKey.{BlackChainPublicKey, from_bytes, verify_message}
use blackchain_crypto_lib_ru.Dilithium
use blackchain_crypto_lib_ru.Ed448.Returns.{ed448_key-Returns, ed448_verify-Returns}
use blackchain_crypto_lib_ru.Error.{CryptoError}
use blackchain_crypto_lib_ru.P521

module _ (m : MlDsa) where
  pub dil_key-Returns : (bytes : Bytes) → Returns (Dilithium.public_from_bytes m bytes)
  unfolding Dilithium.public_from_bytes
  dil_key-Returns bytes = search returns_rules

  pub dil_verify-Returns :
      (pk : Dilithium.PublicKey m) (msg sig : Bytes)
      → Returns (Dilithium.verify_internal m pk msg sig)
  unfolding Dilithium.verify_internal
  dil_verify-Returns pk msg sig = search returns_rules

module _ (p : P521Ecdsa) where
  pub p521_key-Returns : (bytes : Bytes) → Returns (P521.public_from_bytes p bytes)
  unfolding P521.public_from_bytes
  p521_key-Returns bytes = search returns_rules

  pub p521_verify-Returns :
      (pk : P521.PublicKey p) (msg sig : Bytes) → Returns (P521.verify_sig p pk msg sig)
  unfolding P521.verify_sig
  p521_verify-Returns pk msg sig = search returns_rules

module _ (c : Crates) where
  open c use {hashes, ml_dsa, ecdsa, ed448_rust, goldilocks}

  pub checks-Returns :
      {A : Type 0} (pk : BlackChainPublicKey) (hash bound sig : Bytes) (result : A)
      → Returns (checks c pk hash bound sig result)
  checks-Returns pk hash bound sig result = elim (Bool-cases (length sig == 4873)) [
    | inr other ↦ rw other (Returns-err _)
    | inl sized ↦
        rw (checks_sized c pk hash bound sig result ((==_iff (length sig) 4873).0 sized)) (
          search
            (
              returns_rules,
              dil_key-Returns ml_dsa,
              dil_verify-Returns ml_dsa,
              p521_key-Returns ecdsa,
              p521_verify-Returns ecdsa,
              ed448_key-Returns hashes ed448_rust goldilocks,
              ed448_verify-Returns hashes ed448_rust goldilocks,
            )
            depth 14)
  ]

  pub from_bytes-Returns : (bytes : Bytes) → Returns (from_bytes c bytes)
  unfolding from_bytes
  from_bytes-Returns bytes = elim (Bool-cases (length bytes == 2782)) [
    | inr other ↦ rw other (Returns-err _)
    | inl sized ↦
        let e = (==_iff (length bytes) 2782).0 sized in
        rw
          (
            e,
            slice_inside {E = CryptoError} 0 2592 bytes (omega arith) (omega arith),
            slice_inside {E = CryptoError} 2592 2725 bytes (omega arith) (omega arith),
            slice_inside {E = CryptoError} 2725 2782 bytes (omega arith) (omega arith),
          )
          (search
            (
              returns_rules,
              dil_key-Returns ml_dsa,
              p521_key-Returns ecdsa,
              ed448_key-Returns hashes ed448_rust goldilocks,
            )
            depth 10)
  ]

  pub verify_message-Returns :
      (pk : BlackChainPublicKey) (message sig : Bytes) → Returns (verify_message c pk message sig)
  unfolding verify_message
  verify_message-Returns pk message sig = checks-Returns pk _ _ sig true
