-- ===== src/Crypto/PublicKey.antt =====
-- src/crypto.rs, `BlackChainPublicKey`. `from_bytes` checks the three parts and keeps their bytes.
use blackchain_crypto_lib_ru.Base.{
  ℕ, ◌+◌, Bool, true, not, none, [], ◌∷◌, ◌++◌, ◌==◌, Bytes, Message, String, text, number, ok,
  ◌>>=◌, ◌>>◌, refuse_if, map_err, copy_from_slice, slice, length, replicate,
}
use blackchain_crypto_lib_ru.Crates.{Crates}
use blackchain_crypto_lib_ru.Dilithium
use blackchain_crypto_lib_ru.Ed448
use blackchain_crypto_lib_ru.Error.{
  CryptoError, invalid_key_size, signature_error, display, Fallible,
}
use blackchain_crypto_lib_ru.HdWallet.Derivation.{curve_id_p521, curve_id_ed448}
use blackchain_crypto_lib_ru.P521

abbrev pub algo_id : ℕ
algo_id = 1

abbrev pub version : ℕ
version = 1

abbrev pub composite_pk_size : ℕ
composite_pk_size = Dilithium.public_key_size + P521.public_key_size + Ed448.public_key_size

pub record BlackChainPublicKey : Type 0 where
  pub dilithium : Bytes
  pub p521 : Bytes
  pub ed448 : Bytes

unfoldable pub to_bytes : BlackChainPublicKey → Bytes
to_bytes pk = pk.dilithium ++ (pk.p521 ++ pk.ed448)

-- `SignatureError(format!("{what}{e}"))`
abbrev pub failed : String → Message → CryptoError
failed what e = signature_error (text what ∷ e)

module _ (c : Crates) where
  open c use {hashes, ml_dsa, ecdsa, ed448_rust, goldilocks, rlp}

  unfoldable pub from_bytes : Bytes → Fallible BlackChainPublicKey
  from_bytes bytes = do
    refuse_if (not (length bytes == composite_pk_size))
        (invalid_key_size composite_pk_size (length bytes))
    dil_bytes ← slice 0 Dilithium.public_key_size bytes
    p521_bytes ←
        slice Dilithium.public_key_size (Dilithium.public_key_size + P521.public_key_size) bytes
    ed448_bytes ← slice (Dilithium.public_key_size + P521.public_key_size) (length bytes) bytes
    map_err Dilithium.into (Dilithium.public_from_bytes ml_dsa dil_bytes)
    P521.public_from_bytes ecdsa p521_bytes
    Ed448.public_from_bytes hashes ed448_rust goldilocks ed448_bytes
    ok (record { dilithium = dil_bytes; p521 = p521_bytes; ed448 = ed448_bytes })

  -- The last 20 of the 32 hash bytes.
  unfoldable pub derive_address : BlackChainPublicKey → Fallible Bytes
  derive_address pk = do
    let hash = hashes.keccak256 (pk.dilithium ++ (pk.p521 ++ pk.ed448))
    address ← slice 12 32 hash
    copy_from_slice 20 address

  unfoldable pub verify_message : BlackChainPublicKey → Bytes → Bytes → Fallible Bool
  verify_message pk message signature = do
    let hash = hashes.keccak256 message
    let entg_nonce = replicate 16 0
    let h_combined = hashes.shake256 (pk.dilithium ++ (pk.p521 ++ (pk.ed448 ++ entg_nonce))) 32
    let dil_sig_len = Dilithium.signature_size
    let p521_sig_len = P521.signature_size
    let expected_len = dil_sig_len + p521_sig_len + Ed448.signature_size
    refuse_if (not (length signature == expected_len)) (
        signature_error (
          text "composite signature has wrong length: "
          ∷ number (length signature)
          ∷ text " bytes (expected "
          ∷ number expected_len
          ∷ text ")"
          ∷ []))
    dil_sig ← slice 0 dil_sig_len signature
    p521_sig ← slice dil_sig_len (dil_sig_len + p521_sig_len) signature
    ed448_sig ← slice (dil_sig_len + p521_sig_len) (length signature) signature
    dil_pk ←
        map_err (λ e. failed "ML-DSA-87 public key parse error: " (Dilithium.error_text e))
          (Dilithium.public_from_bytes ml_dsa pk.dilithium)
    map_err (λ e. failed "ML-DSA-87 verification failed: " (Dilithium.error_text e))
        (Dilithium.verify_internal ml_dsa dil_pk hash dil_sig)
    let p521_msg = hash ++ (h_combined ++ curve_id_p521 ∷ [])
    p521_pk ←
        map_err (λ e. failed "P-521 public key parse error: " (display rlp.error_text e))
          (P521.public_from_bytes ecdsa pk.p521)
    map_err (λ e. failed "P-521 verification failed: " (display rlp.error_text e))
        (P521.verify_sig ecdsa p521_pk p521_msg p521_sig)
    let ed448_msg = hash ++ (h_combined ++ curve_id_ed448 ∷ [])
    ed448_pk ←
        map_err (λ e. failed "Ed448 public key parse error: " (display rlp.error_text e))
          (Ed448.public_from_bytes hashes ed448_rust goldilocks pk.ed448)
    map_err (λ e. failed "Ed448 verification failed: " (display rlp.error_text e))
        (Ed448.verify_sig hashes ed448_rust goldilocks ed448_pk ed448_msg ed448_sig none)
    ok true
