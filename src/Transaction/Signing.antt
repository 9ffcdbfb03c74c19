-- ===== src/Transaction/Signing.antt =====
-- src/transaction/signing.rs: the hash to sign, signing in place, and recovery of the sender.
-- `sign_transaction` returns the new transaction: on an error the source has written nothing.
pub mod Recovery
pub mod RoundTrip
pub mod Envelope
pub mod Commitment
pub mod Binding
pub mod Tampering
pub mod Cases
use blackchain_crypto_lib_ru.Base.{
  ℕ, zero, suc, ◌+◌, ◌*◌, ◌/◌, ◌%◌, ◌^◌, Bool, false, not, ◌||◌, Option, none, some, [], ◌∷◌, ◌++◌,
  ◌==◌, Bytes, plain, text, number, codes, ok, ◌>>=◌, ◌>>◌, refuse_if, map_err, ok_or, slice,
  length,
}
use blackchain_crypto_lib_ru.Crates.{Crates}
use blackchain_crypto_lib_ru.Crypto.PrivateKey.{BlackChainPrivateKey}
use blackchain_crypto_lib_ru.Crypto.PublicKey.{
  BlackChainPublicKey, to_bytes, from_bytes, derive_address, failed, algo_id, version,
}
use blackchain_crypto_lib_ru.Dilithium
use blackchain_crypto_lib_ru.Ed448
use blackchain_crypto_lib_ru.Error.{signature_error, display, Fallible}
use blackchain_crypto_lib_ru.HdWallet.Derivation.{curve_id_p521, curve_id_ed448}
use blackchain_crypto_lib_ru.P521
use blackchain_crypto_lib_ru.Transaction.Codec
use blackchain_crypto_lib_ru.Transaction.Types.{BlackChainTxType, tx_type}

abbrev pub composite_sig_size : ℕ
composite_sig_size = Dilithium.signature_size + P521.signature_size + Ed448.signature_size

-- `to_be_bytes` of a number of n bytes.
unfoldable pub to_be_bytes : ℕ → ℕ → Bytes
to_be_bytes zero x = []
to_be_bytes (suc n) x = to_be_bytes n (x / 256) ++ (x % 256) ∷ []

-- `U256` arithmetic, which wraps.
abbrev u256_mul : ℕ → ℕ → ℕ
u256_mul a b = a * b % 2 ^ 256

abbrev u256_add : ℕ → ℕ → ℕ
u256_add a b = (a + b) % 2 ^ 256

-- The placeholder that `v` must hold.
unfoldable pub expected_v : ℕ → ℕ
expected_v chain_id = u256_add (u256_mul chain_id 2) 35

-- `option == Some(x)`
abbrev pub equals_some : Option ℕ → ℕ → Bool
equals_some none x = false
equals_some (some y) x = y == x

-- The copy of a transaction with no signature field.
unfoldable pub unsigned : BlackChainTxType → BlackChainTxType
unsigned tx = record {
  chain_id = tx.chain_id;
  nonce = tx.nonce;
  max_priority_fee_per_gas = tx.max_priority_fee_per_gas;
  max_fee_per_gas = tx.max_fee_per_gas;
  gas_limit = tx.gas_limit;
  to = tx.to;
  value = tx.value;
  input = tx.input;
  v = none;
  r = none;
  s = none;
  pqc_signature = none;
  pub_key = none;
}

module _ (c : Crates) where
  open c use {hashes, ml_dsa, ecdsa, ed448_rust, goldilocks, rlp}

  unfoldable pub compute_entanglement_nonce : ℕ → Bytes → Bytes
  compute_entanglement_nonce chain_id address =
      hashes.shake256
        (codes "entangle" ++ (algo_id ∷ version ∷ (to_be_bytes 8 chain_id ++ address))) 16

  unfoldable pub compute_h_combined : BlackChainPublicKey → Bytes → Bytes
  compute_h_combined pub_key entg_nonce =
      hashes.shake256 (pub_key.dilithium ++ (pub_key.p521 ++ (pub_key.ed448 ++ entg_nonce))) 32

  unfoldable pub signature_hash : BlackChainTxType → Bytes
  signature_hash tx = hashes.keccak256 (tx_type ∷ Codec.encode rlp (unsigned tx))

  -- `nonce` is the randomness of the P-521 signature.
  unfoldable pub sign_transaction :
      BlackChainTxType → BlackChainPrivateKey → Bytes → Fallible BlackChainTxType
  sign_transaction tx key nonce = do
    let hash = signature_hash tx
    let pub_key = key.public
    address ← derive_address c pub_key
    let entg_nonce = compute_entanglement_nonce tx.chain_id address
    let h_combined = compute_h_combined pub_key entg_nonce
    refuse_if (not (length key.dilithium == Dilithium.private_key_size)) (
        signature_error (
          text "ML-DSA-87 seed has wrong size: expected "
          ∷ number Dilithium.private_key_size
          ∷ text ", got "
          ∷ number (length key.dilithium)
          ∷ []))
    dil_sk ←
        map_err (λ e. failed "ML-DSA-87 key parse failed: " (Dilithium.error_text e))
          (Dilithium.private_from_bytes ml_dsa key.dilithium)
    dil_sig ← map_err Dilithium.into (Dilithium.sign_internal ml_dsa dil_sk hash)
    let p521_msg = hash ++ (h_combined ++ curve_id_p521 ∷ [])
    p521_sk ← P521.private_from_bytes ecdsa key.p521
    let p521_sig = P521.sign_msg ecdsa p521_sk p521_msg nonce
    let ed448_msg = hash ++ (h_combined ++ curve_id_ed448 ∷ [])
    (ed448_pk, ed448_sk) ←
        map_err (λ e. signature_error (display rlp.error_text e))
          (Ed448.private_from_bytes hashes ed448_rust goldilocks key.ed448)
    ed448_sig ← Ed448.sign_msg hashes ed448_rust goldilocks ed448_sk ed448_msg none
    let signed : BlackChainTxType = record tx {
      pqc_signature = some (dil_sig ++ (p521_sig ++ ed448_sig));
      pub_key = some (to_bytes pub_key);
      v = some (expected_v tx.chain_id);
      r = some 0;
      s = some 0;
    }
    ok signed

  unfoldable pub verify_signature : Bytes → ℕ → Bytes → Bytes → Fallible Bytes
  verify_signature tx_hash chain_id pub_key_bytes pqc_sig = do
    pub_key ← from_bytes c pub_key_bytes
    address ← derive_address c pub_key
    let entg_nonce = compute_entanglement_nonce chain_id address
    let h_combined = compute_h_combined pub_key entg_nonce
    refuse_if (not (length pqc_sig == composite_sig_size)) (
        signature_error (
          text "composite signature has wrong length: "
          ∷ number (length pqc_sig)
          ∷ text " bytes (expected "
          ∷ number composite_sig_size
          ∷ text ")"
          ∷ []))
    dil_sig ← slice 0 Dilithium.signature_size pqc_sig
    p521_sig ←
        slice Dilithium.signature_size (Dilithium.signature_size + P521.signature_size) pqc_sig
    ed448_sig ← slice (Dilithium.signature_size + P521.signature_size) (length pqc_sig) pqc_sig
    dil_pk ←
        map_err (λ e. failed "ML-DSA-87 public key parse error: " (Dilithium.error_text e))
          (Dilithium.public_from_bytes ml_dsa pub_key.dilithium)
    map_err (λ e. failed "ML-DSA-87 verification failed: " (Dilithium.error_text e))
        (Dilithium.verify_internal ml_dsa dil_pk tx_hash dil_sig)
    let p521_msg = tx_hash ++ (h_combined ++ curve_id_p521 ∷ [])
    p521_pk ←
        map_err (λ e. failed "P-521 public key parse error: " (display rlp.error_text e))
          (P521.public_from_bytes ecdsa pub_key.p521)
    map_err (λ e. failed "P-521 verification failed: " (display rlp.error_text e))
        (P521.verify_sig ecdsa p521_pk p521_msg p521_sig)
    let ed448_msg = tx_hash ++ (h_combined ++ curve_id_ed448 ∷ [])
    ed448_pk ←
        map_err (λ e. failed "Ed448 public key parse error: " (display rlp.error_text e))
          (Ed448.public_from_bytes hashes ed448_rust goldilocks pub_key.ed448)
    map_err (λ e. failed "Ed448 verification failed: " (display rlp.error_text e))
        (Ed448.verify_sig hashes ed448_rust goldilocks ed448_pk ed448_msg ed448_sig none)
    ok address

  unfoldable pub recover_sender : BlackChainTxType → Fallible Bytes
  recover_sender tx = do
    pqc_sig ←
        ok_or (signature_error (plain "transaction is not signed (pqc_signature missing)"))
          tx.pqc_signature
    pub_key_bytes ←
        ok_or (signature_error (plain "transaction is not signed (pub_key missing)")) tx.pub_key
    refuse_if
        (not (equals_some tx.v (expected_v tx.chain_id))
          || (not (equals_some tx.r 0) || not (equals_some tx.s 0)))
        (signature_error (
          plain
            "non-canonical transaction envelope: v/r/s must equal the mandated placeholders (v = chain_id*2+35, r = 0, s = 0)"))
    let hash = signature_hash tx
    verify_signature hash tx.chain_id pub_key_bytes pqc_sig
