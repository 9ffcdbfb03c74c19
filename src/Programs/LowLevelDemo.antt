-- ===== src/Programs/LowLevelDemo.antt =====
-- src/bin/low_level_demo.rs: the steps of key derivation, signing and verification one by one. What is
-- only printed is left out. An error of the ML-DSA wrapper is boxed as the `CryptoError` of its text.
pub mod Keys
pub mod Run
use blackchain_crypto_lib_ru.Base.{
  ℕ, ◌-◌, none, some, [], ◌∷◌, ◌++◌, Bytes, Chars, codes, ok, ◌>>=◌, ◌>>◌, map_err, copy_from_slice,
  slice, length, replicate,
}
use blackchain_crypto_lib_ru.Crates.{Crates, Entropy}
use blackchain_crypto_lib_ru.Crypto.PublicKey.{algo_id, version}
use blackchain_crypto_lib_ru.Dilithium
use blackchain_crypto_lib_ru.Ed448
use blackchain_crypto_lib_ru.Ed448.Scheme.{new_key_from_seed}
use blackchain_crypto_lib_ru.Error.{Fallible}
use blackchain_crypto_lib_ru.HdWallet.Derivation.{
  derive_mdecc_curve_seed, derive_child_seed, curve_id_p521, curve_id_ed448,
}
use blackchain_crypto_lib_ru.HdWallet.Mnemonic.{generate_mnemonic, seed_from_mnemonic}
use blackchain_crypto_lib_ru.HdWallet.Path.{parse_hardened_path}
use blackchain_crypto_lib_ru.P521
use blackchain_crypto_lib_ru.P521.Scheme.{derive_key_typed}
use blackchain_crypto_lib_ru.Transaction.Signing.{signature_hash}
use blackchain_crypto_lib_ru.Transaction.Types.{BlackChainTxType}

abbrev pub demo_passphrase : Chars
demo_passphrase = codes "my_custom_passphrase"

abbrev pub demo_path : Chars
demo_path = codes "m/44'/60'/0'/0'/0'"

-- Step 9.
abbrev pub unsigned_tx : BlackChainTxType
unsigned_tx = record {
  chain_id = 1;
  nonce = 42;
  max_priority_fee_per_gas = 2000000000;
  max_fee_per_gas = 50000000000;
  gas_limit = 21000;
  to = some (replicate 20 0xbb);
  value = 500000000000000000;
  input = 1 ∷ 2 ∷ 3 ∷ 4 ∷ [];
  v = none;
  r = none;
  s = none;
  pqc_signature = none;
  pub_key = none;
}

module _ (c : Crates) where
  open c use {hashes, ml_dsa, ecdsa, ed448_rust, goldilocks, bip39, bip32}

  pub record DemoKeys : Type 0 where
    pub dil_pk_buf : Bytes
    pub dil_sk : Dilithium.PrivateKey ml_dsa
    pub p521_pk : P521.PublicKey ecdsa
    pub p521_sk : P521.PrivateKey ecdsa
    pub ed448_pk : Ed448.PublicKey hashes ed448_rust goldilocks
    pub ed448_sk : Ed448.PrivateKey hashes ed448_rust goldilocks

  -- Steps 6 and 7, the keys of the two curves.
  unfoldable pub derive_curve_keys : Bytes → Dilithium.PrivateKey ml_dsa → Bytes → Fallible DemoKeys
  derive_curve_keys dil_pk_buf dil_sk mdecc_seed = do
    p521_seed ← derive_mdecc_curve_seed hashes mdecc_seed curve_id_p521 P521.seed_size
    (p521_pk, p521_sk) ← derive_key_typed ecdsa hashes p521_seed
    ed448_seed ← derive_mdecc_curve_seed hashes mdecc_seed curve_id_ed448 Ed448.seed_size
    (ed448_pk, ed448_sk) ← new_key_from_seed hashes ed448_rust goldilocks ed448_seed
    ed448_sk_bytes ← Ed448.as_bytes hashes ed448_rust goldilocks ed448_sk
    ok (record {
      dil_pk_buf = dil_pk_buf;
      dil_sk = dil_sk;
      p521_pk = p521_pk;
      p521_sk = p521_sk;
      ed448_pk = ed448_pk;
      ed448_sk = ed448_sk;
    })

  -- Steps 4 and 5, which those follow.
  unfoldable pub derive_keys : Bytes → Fallible DemoKeys
  derive_keys child_seed = do
    dil_slice ← slice 0 Dilithium.seed_size child_seed
    dil_seed ← copy_from_slice Dilithium.seed_size dil_slice
    mdecc_seed ← slice 32 64 child_seed
    (dil_pk, dil_sk) ← map_err Dilithium.into (Dilithium.new_key_from_seed ml_dsa dil_seed)
    dil_pk_buf ← map_err Dilithium.into (Dilithium.pack ml_dsa dil_pk)
    dil_sk_buf ← map_err Dilithium.into (Dilithium.pack_private ml_dsa dil_sk)
    derive_curve_keys dil_pk_buf dil_sk mdecc_seed

  -- Step 8, and again in step 12.
  unfoldable pub address_of : Bytes → Fallible Bytes
  address_of pk_bytes = do hash ← slice 12 32 (hashes.keccak256 pk_bytes); copy_from_slice 20 hash

  -- Step 10, and again in step 12. The nonce is made of the address alone, without the chain id.
  unfoldable pub binding : Bytes → Bytes → Bytes → Bytes → Bytes
  binding dil_pk p521_pk ed448_pk address =
      let entanglement_nonce =
        hashes.shake256 (codes "entangle" ++ (algo_id ∷ version ∷ address)) 16 in
      hashes.shake256 (dil_pk ++ (p521_pk ++ (ed448_pk ++ entanglement_nonce))) 32

  -- Step 12, on the received bytes; the lengths are those of the first and of the last signature,
  -- which are parts of the composite, so that the difference does not wrap.
  unfoldable pub receive : Bytes → Bytes → Bytes → ℕ → ℕ → Fallible (Unit {0})
  receive composite_pk_bytes composite tx_hash dil_len ed448_len = do
    rx_dil_pk ← slice 0 Dilithium.public_key_size composite_pk_bytes
    rx_p521_pk ← slice 2592 2725 composite_pk_bytes
    rx_ed448_pk ← slice 2725 (length composite_pk_bytes) composite_pk_bytes
    verify_address ← address_of composite_pk_bytes
    let v_h_combined = binding rx_dil_pk rx_p521_pk rx_ed448_pk verify_address
    rx_dil_sig ← slice 0 dil_len composite
    let offset = length composite - ed448_len
    rx_p521_sig ← slice dil_len offset composite
    rx_ed448_sig ← slice offset (length composite) composite
    parsed_dil_pk ← map_err Dilithium.into (Dilithium.public_from_bytes ml_dsa rx_dil_pk)
    map_err Dilithium.into (Dilithium.verify_internal ml_dsa parsed_dil_pk tx_hash rx_dil_sig)
    parsed_p521_pk ← P521.public_from_bytes ecdsa rx_p521_pk
    P521.verify_sig ecdsa parsed_p521_pk (tx_hash ++ (v_h_combined ++ curve_id_p521 ∷ []))
        rx_p521_sig
    parsed_ed448_pk ← Ed448.public_from_bytes hashes ed448_rust goldilocks rx_ed448_pk
    Ed448.verify_sig hashes ed448_rust goldilocks parsed_ed448_pk
        (tx_hash ++ (v_h_combined ++ curve_id_ed448 ∷ [])) rx_ed448_sig none

  -- Steps 8 to 12. `nonce` is the randomness of the P-521 signature.
  unfoldable pub sign_and_verify : DemoKeys → Bytes → Fallible (Unit {0})
  sign_and_verify keys nonce = do
    let p521_pk_bytes = P521.public_as_bytes ecdsa keys.p521_pk
    let ed448_pk_bytes = keys.ed448_pk.raw
    let composite_pk_bytes = keys.dil_pk_buf ++ (p521_pk_bytes ++ ed448_pk_bytes)
    derived_address ← address_of composite_pk_bytes
    let tx_hash = signature_hash c unsigned_tx
    let h_combined = binding keys.dil_pk_buf p521_pk_bytes ed448_pk_bytes derived_address
    dil_sig ← map_err Dilithium.into (Dilithium.sign_internal ml_dsa keys.dil_sk tx_hash)
    let p521_sig =
        P521.sign_msg ecdsa keys.p521_sk (tx_hash ++ (h_combined ++ curve_id_p521 ∷ [])) nonce
    ed448_sig ←
        Ed448.sign_msg hashes ed448_rust goldilocks keys.ed448_sk
          (tx_hash ++ (h_combined ++ curve_id_ed448 ∷ [])) none
    let composite = dil_sig ++ (p521_sig ++ ed448_sig)
    receive composite_pk_bytes composite tx_hash (length dil_sig) (length ed448_sig)

  unfoldable pub main : Entropy → Bytes → Fallible (Unit {0})
  main entropy nonce = do
    mnemonic ← generate_mnemonic bip39 entropy
    root_seed ← seed_from_mnemonic bip39 mnemonic demo_passphrase
    path ← parse_hardened_path demo_path
    child_seed ← derive_child_seed bip32 root_seed path
    keys ← derive_keys child_seed
    sign_and_verify keys nonce
