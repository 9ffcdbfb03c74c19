-- ===== src/Crypto/PrivateKey.antt =====
-- src/crypto.rs, `BlackChainPrivateKey`: keys from a 64-byte seed, and signing of messages.
use blackchain_crypto_lib_ru.Base.{
  none, [], ◌∷◌, ◌++◌, ltb, Bytes, plain, ok, ◌>>=◌, ◌>>◌, refuse_if, map_err, copy_from_slice,
  slice, length, replicate,
}
use blackchain_crypto_lib_ru.Crates.{Crates}
use blackchain_crypto_lib_ru.Crypto.PublicKey.{BlackChainPublicKey, failed}
use blackchain_crypto_lib_ru.Dilithium
use blackchain_crypto_lib_ru.Ed448
use blackchain_crypto_lib_ru.Error.{seed_error, signature_error, display, Fallible}
use blackchain_crypto_lib_ru.HdWallet.Derivation.{
  curve_id_p521, curve_id_ed448, derive_mdecc_curve_seed,
}
use blackchain_crypto_lib_ru.P521

pub record BlackChainPrivateKey : Type 0 where
  pub dilithium : Bytes
  pub p521 : Bytes
  pub ed448 : Bytes
  pub seed : Bytes
  pub public : BlackChainPublicKey

module _ (c : Crates) where
  open c use {hashes, ml_dsa, ecdsa, ed448_rust, goldilocks, rlp}

  unfoldable pub generate : Bytes → Fallible (BlackChainPrivateKey × BlackChainPublicKey)
  generate seed = do
    refuse_if (ltb (length seed) 64)
        (seed_error (plain "seed must be at least 64 bytes for BlackChain key derivation"))
    dil_slice ← slice 0 Dilithium.seed_size seed
    dil_seed ← copy_from_slice Dilithium.seed_size dil_slice
    (dil_pk, dil_sk) ← map_err Dilithium.into (Dilithium.new_key_from_seed ml_dsa dil_seed)
    mdecc_seed ← slice 32 64 seed
    p521_seed ← derive_mdecc_curve_seed hashes mdecc_seed curve_id_p521 P521.seed_size
    (p521_pk, p521_sk) ← P521.derive_keypair_from_seed ecdsa hashes p521_seed
    ed448_seed ← derive_mdecc_curve_seed hashes mdecc_seed curve_id_ed448 Ed448.seed_size
    (ed448_pk, ed448_sk) ← Ed448.from_seed hashes ed448_rust goldilocks ed448_seed
    dil_sk_buf ← map_err Dilithium.into (Dilithium.pack_private ml_dsa dil_sk)
    dil_pk_buf ← map_err Dilithium.into (Dilithium.pack ml_dsa dil_pk)
    let pub_key : BlackChainPublicKey = record {
      dilithium = dil_pk_buf;
      p521 = P521.public_as_bytes ecdsa p521_pk;
      ed448 = ed448_pk.raw;
    }
    ed448_sk_bytes ← Ed448.as_bytes hashes ed448_rust goldilocks ed448_sk
    let priv_key : BlackChainPrivateKey = record {
      dilithium = dil_sk_buf;
      p521 = P521.private_as_bytes ecdsa p521_sk;
      ed448 = ed448_sk_bytes;
      seed = seed;
      public = pub_key;
    }
    ok (priv_key, pub_key)

  unfoldable pub derive_public_key : BlackChainPrivateKey → Fallible BlackChainPublicKey
  derive_public_key sk = do
    dil_slice ← slice 0 Dilithium.seed_size sk.seed
    dil_seed ← copy_from_slice Dilithium.seed_size dil_slice
    (dil_pk, dil_sk) ← map_err Dilithium.into (Dilithium.new_key_from_seed ml_dsa dil_seed)
    mdecc_seed ← slice 32 64 sk.seed
    p521_seed ← derive_mdecc_curve_seed hashes mdecc_seed curve_id_p521 P521.seed_size
    (p521_pk, p521_sk) ← P521.derive_keypair_from_seed ecdsa hashes p521_seed
    ed448_seed ← derive_mdecc_curve_seed hashes mdecc_seed curve_id_ed448 Ed448.seed_size
    (ed448_pk, ed448_sk) ← Ed448.from_seed hashes ed448_rust goldilocks ed448_seed
    dil_pk_buf ← map_err Dilithium.into (Dilithium.pack ml_dsa dil_pk)
    ok (record {
      dilithium = dil_pk_buf;
      p521 = P521.public_as_bytes ecdsa p521_pk;
      ed448 = ed448_pk.raw;
    })

  -- `nonce` is the randomness of the P-521 signature.
  unfoldable pub sign_message : BlackChainPrivateKey → Bytes → Bytes → Fallible Bytes
  sign_message sk message nonce = do
    let hash = hashes.keccak256 message
    let pub_key = sk.public
    let entg_nonce = replicate 16 0
    let h_combined =
        hashes.shake256 (pub_key.dilithium ++ (pub_key.p521 ++ (pub_key.ed448 ++ entg_nonce))) 32
    dil_sk ←
        map_err (λ e. failed "ML-DSA-87 key parse failed: " (Dilithium.error_text e))
          (Dilithium.private_from_bytes ml_dsa sk.dilithium)
    dil_sig ← map_err Dilithium.into (Dilithium.sign_internal ml_dsa dil_sk hash)
    let p521_msg = hash ++ (h_combined ++ curve_id_p521 ∷ [])
    p521_sk ← P521.private_from_bytes ecdsa sk.p521
    let p521_sig = P521.sign_msg ecdsa p521_sk p521_msg nonce
    let ed448_msg = hash ++ (h_combined ++ curve_id_ed448 ∷ [])
    (ed448_pk, ed448_sk) ←
        map_err (λ e. signature_error (display rlp.error_text e))
          (Ed448.private_from_bytes hashes ed448_rust goldilocks sk.ed448)
    ed448_sig ← Ed448.sign_msg hashes ed448_rust goldilocks ed448_sk ed448_msg none
    ok (dil_sig ++ (p521_sig ++ ed448_sig))
